-- ===== src/Core/Allowlist/Syntax.antt =====
-- Parsing of allowlist entries against their printed form.
use hyperbox.Prelude.{
  true, false, Option, none, some, Text, codes, any, all, is_empty, contains_text, starts_with,
  ends_with, trim, to_ascii_lowercase, is_whitespace, strip_prefix, strip_prefix_to, trim_none,
  lower_idem, ◌≡◌, refl, arith, inl, inr,
}
use hyperbox.Core.Error.{ok, Result-cases}
use hyperbox.Core.Allowlist.{
  AllowlistEntry, exact, wildcard_subdomain, as_str, to_pattern_string, entry_by, entry_of,
  hostname_char, check_hostname, parse_domain, parse,
}

-- What the parser's checks say of a hostname.
pub record IsChecked (h : Text) : Type 0 where
  pub nonempty : is_empty h ≡ false
  pub lower_case : to_ascii_lowercase h ≡ h
  pub characters : all hostname_char h ≡ true
  pub no_leading_dot : starts_with (codes ".") h ≡ false
  pub no_trailing_dot : ends_with (codes ".") h ≡ false
  pub no_empty_label : contains_text (codes "..") h ≡ false

entry_by-ok :
    (d : Text) (o : Option Text) (e : AllowlistEntry)
    → strip_prefix (codes "*.") d ≡ o
    → entry_by d o ≡ ok e
    → to_pattern_string e ≡ d
unfolding entry_by to_pattern_string
entry_by-ok d none e p h = ground arith
entry_by-ok d (some r) e p h = ground (arith, strip_prefix_to (codes "*.") d p)

-- The variant that the parser chooses prints as the domain that it was chosen for.
entry_of-ok : (d : Text) (e : AllowlistEntry) → entry_of d ≡ ok e → to_pattern_string e ≡ d
unfolding entry_of
entry_of-ok d e h = entry_by-ok d (strip_prefix (codes "*.") d) e refl h

-- What a successful parse went through.
record Accepted (d : Text) (e : AllowlistEntry) : Type 0 where
  entry : entry_of d ≡ ok e
  nonempty : is_empty d ≡ false
  bare : any is_whitespace d ≡ false
  hostname : check_hostname d (as_str e) e ≡ ok e

check_hostname-ok : (d h : Text) (e f : AllowlistEntry) → check_hostname d h e ≡ ok f → e ≡ f
unfolding check_hostname
check_hostname-ok d h e f p = ground arith

parse_domain-ok : (d : Text) (e : AllowlistEntry) → parse_domain d ≡ ok e → Accepted d e
unfolding parse_domain
parse_domain-ok d e h = elim (Result-cases (entry_of d)) [
  | inl (f, p) ↦
      let q = check_hostname-ok d (as_str f) f e in
      record {
        entry = ground (arith, q);
        nonempty = ground arith;
        bare = ground arith;
        hostname = ground (arith, q);
      }
  | inr (x, p) ↦ absurd (ground arith)
]

-- An accepted entry is accepted again from its own printed form.
pub parse-to_pattern_string :
    (raw : Text) (e : AllowlistEntry) → parse raw ≡ ok e → parse (to_pattern_string e) ≡ ok e
unfolding parse
parse-to_pattern_string raw e h =
    let d : Text = to_ascii_lowercase (trim raw) in
    let a = parse_domain-ok d e h in
    rw (entry_of-ok d e a.entry, trim_none d a.bare, lower_idem (trim raw)) h

check_hostname-IsChecked :
    (d h : Text) (e f : AllowlistEntry)
    → check_hostname d h e ≡ ok f
    → is_empty h ≡ false
    → to_ascii_lowercase h ≡ h
    → IsChecked h
unfolding check_hostname
check_hostname-IsChecked d h e f p q r = ground arith

entry_by-nonempty :
    (d : Text) (o : Option Text) (e : AllowlistEntry)
    → entry_by d o ≡ ok e
    → is_empty d ≡ false
    → is_empty (as_str e) ≡ false
unfolding entry_by as_str
entry_by-nonempty d none e p q = ground arith
entry_by-nonempty d (some r) e p q = ground arith

-- A pattern in lower case holds a hostname in lower case.
as_str-lower :
    (e : AllowlistEntry)
    → to_ascii_lowercase (to_pattern_string e) ≡ to_pattern_string e
    → to_ascii_lowercase (as_str e) ≡ as_str e
unfolding to_pattern_string as_str to_ascii_lowercase
as_str-lower (exact h) p = p
as_str-lower (wildcard_subdomain s) p = cc

pub parse-IsChecked : (raw : Text) (e : AllowlistEntry) → parse raw ≡ ok e → IsChecked (as_str e)
unfolding parse
parse-IsChecked raw e h =
    let d : Text = to_ascii_lowercase (trim raw) in
    let a = parse_domain-ok d e h in
    let printed = entry_of-ok d e a.entry in
    check_hostname-IsChecked d (as_str e) e e a.hostname
      (entry_by-nonempty d (strip_prefix (codes "*.") d) e (unfold entry_of in a.entry) a.nonempty)
      (as_str-lower e (rw printed (lower_idem (trim raw))))
