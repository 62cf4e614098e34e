-- ===== src/Core/Allowlist/Dedup.antt =====
-- `Allowlist::parse` of crates/hyperbox-core/src/config.rs, which drops repeated patterns.
use hyperbox.Prelude.{
  Bool, true, false, ◌||◌, List, [], ◌∷◌, Text, any, contains, text_eq, ◌≡◌, refl, inl, inr, arith,
  Bool-cases, eq_of_beq, text_beq,
}
use hyperbox.Core.Error.{Result, ok, err, ◌>>=◌, Result-cases}
use hyperbox.Core.Allowlist.{
  AllowlistEntry, ParseError, Allowlist, to_pattern_string, parse, matches, parse_entries,
  parse_all, allows, to_strings,
}
use hyperbox.Core.Allowlist.Syntax.{parse-to_pattern_string}

abbrev matches_parsed : Result ParseError AllowlistEntry → Text → Bool
matches_parsed (ok e) host = matches e host
matches_parsed (err x) host = false

-- Whether a written pattern, parsed by itself, matches the host.
abbrev pub accepts : Text → Text → Bool
accepts host raw = matches_parsed (parse raw) host

-- A pattern that was seen is among those that may accept.
any-contains :
    (p : Text → Bool) (seen : List Text) (t : Text)
    → contains seen t ≡ true
    → p t ≡ true
    → any p seen ≡ true
any-contains p [] t c h = cc
any-contains p (s ∷ seen) t c h = elim (Bool-cases (text_beq s t)) [
  | inl e ↦ rw (eq_of_beq s t e, h)
  | inr ne ↦ ground (arith, any-contains p seen t)
]

-- The step of the loop, by what the head parses to.
module _ (seen : List Text) (raw : Text) (ds : List Text) (e : AllowlistEntry)
    (parsed : parse raw ≡ ok e) where
  step_seen :
      contains seen (to_pattern_string e) ≡ true
      → parse_entries seen (raw ∷ ds) ≡ parse_entries seen ds
  unfolding parse_entries
  step_seen c = rw parsed (ground arith)

  step_new :
      contains seen (to_pattern_string e) ≡ false
      → parse_entries seen (raw ∷ ds)
        ≡ (parse_entries (to_pattern_string e ∷ seen) ds >>= λ entries. ok (e ∷ entries))
  unfolding parse_entries
  step_new c = rw parsed (ground arith)

step_err :
    (seen : List Text) (raw : Text) (ds : List Text) (x : ParseError)
    → parse raw ≡ err x
    → parse_entries seen (raw ∷ ds) ≡ err x
unfolding parse_entries
step_err seen raw ds x p = rw p

-- The loop, by cases on how its head parses and on whether that was seen.
parse_entries-cases {ℓ} :
    (P : Result ParseError Allowlist → Type ℓ) (seen : List Text) (raw : Text) (ds : List Text)
    → ((x : ParseError) → parse raw ≡ err x → P (err x))
    → ((e : AllowlistEntry)
        → parse raw ≡ ok e
        → contains seen (to_pattern_string e) ≡ true
        → P (parse_entries seen ds))
    → ((e : AllowlistEntry)
        → parse raw ≡ ok e
        → contains seen (to_pattern_string e) ≡ false
        → P (parse_entries (to_pattern_string e ∷ seen) ds >>= λ entries. ok (e ∷ entries)))
    → P (parse_entries seen (raw ∷ ds))
parse_entries-cases P seen raw ds failed old new = elim (Result-cases (parse raw)) [
  | inr (x, p) ↦ rw (step_err seen raw ds x p) (failed x p)
  | inl (e, p) ↦ elim (Bool-cases (contains seen (to_pattern_string e))) [
    | inl c ↦ rw (step_seen seen raw ds e p c) (old e p c)
    | inr c ↦ rw (step_new seen raw ds e p c) (new e p c)
  ]
]

bind-ok :
    (r : Result ParseError Allowlist) (e : AllowlistEntry) (l : Allowlist)
    → (r >>= λ entries. ok (e ∷ entries)) ≡ ok l
    → (rest : Allowlist) × (r ≡ ok rest) × (l ≡ e ∷ rest)
bind-ok (ok rest) e l h = (rest, refl, cc)
bind-ok (err x) e l h = cc

nil-ok : (seen : List Text) (l : Allowlist) → parse_entries seen [] ≡ ok l → l ≡ []
unfolding parse_entries
nil-ok seen l h = cc

accepts-parsed :
    (host raw : Text) (e : AllowlistEntry)
    → parse raw ≡ ok e
    → (accepts host raw ≡ matches e host) × (accepts host (to_pattern_string e) ≡ matches e host)
accepts-parsed host raw e p = (rw p, rw (parse-to_pattern_string raw e p))

allows-cons :
    (host : Text) (e : AllowlistEntry) (l : Allowlist)
    → allows (e ∷ l) host ≡ (matches e host || allows l host)
unfolding allows
allows-cons host e l = refl

allows-nil : (host : Text) → allows [] host ≡ false
unfolding allows
allows-nil host = refl

allows-entries :
    (host : Text) (seen ds : List Text) (l : Allowlist)
    → parse_entries seen ds ≡ ok l
    → (any (accepts host) seen || allows l host)
      ≡ (any (accepts host) seen || any (accepts host) ds)
allows-entries host seen [] l h = rw (nil-ok seen l h, allows-nil host)
allows-entries host seen (raw ∷ ds) l h =
    parse_entries-cases
      (λ r.
        r ≡ ok l
        → (any (accepts host) seen || allows l host)
          ≡ (any (accepts host) seen || any (accepts host) (raw ∷ ds)))
      seen raw ds (λ x p g. cc)
      (λ e p c g.
        let (a, b) = accepts-parsed host raw e p in
        let again = any-contains (accepts host) seen (to_pattern_string e) c in
        let ih = allows-entries host seen ds l g in ground (arith, a, b, again, ih))
      (λ e p c g.
        let (a, b) = accepts-parsed host raw e p in
        let (rest, r, split) = bind-ok (parse_entries (to_pattern_string e ∷ seen) ds) e l g in
        let ih = allows-entries host (to_pattern_string e ∷ seen) ds rest r in
        rw (split, allows-cons host e rest) (ground (arith, a, b, ih)))
      h

-- A parsed allowlist allows a host exactly when one of the written patterns, parsed alone, matches it.
pub allows-parse_all :
    (host : Text) (domains : List Text) (l : Allowlist)
    → parse_all domains ≡ ok l
    → allows l host ≡ any (accepts host) domains
unfolding parse_all
allows-parse_all host domains l h = allows-entries host [] domains l h

parse_entries-nil : (seen : List Text) → parse_entries seen [] ≡ ok []
unfolding parse_entries
parse_entries-nil seen = refl

entries_idem :
    (seen ds : List Text) (l : Allowlist)
    → parse_entries seen ds ≡ ok l
    → parse_entries seen (to_strings l) ≡ ok l
unfolding to_strings
entries_idem seen [] l h = rw (nil-ok seen l h) (parse_entries-nil seen)
entries_idem seen (raw ∷ ds) l h =
    parse_entries-cases (λ r. r ≡ ok l → parse_entries seen (to_strings l) ≡ ok l) seen raw ds
      (λ x p g. cc) (λ e p c g. entries_idem seen ds l g)
      (λ e p c g.
        let (rest, r, split) = bind-ok (parse_entries (to_pattern_string e ∷ seen) ds) e l g in
        rw (
          split,
          step_new seen (to_pattern_string e) (to_strings rest) e (parse-to_pattern_string raw e p)
              c,
          entries_idem (to_pattern_string e ∷ seen) ds rest r,
        ))
      h

-- The printed form of a parsed allowlist parses to the same allowlist.
pub parse_all-to_strings :
    (domains : List Text) (l : Allowlist)
    → parse_all domains ≡ ok l
    → parse_all (to_strings l) ≡ ok l
unfolding parse_all
parse_all-to_strings domains l h = entries_idem [] domains l h
