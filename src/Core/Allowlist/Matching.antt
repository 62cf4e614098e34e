-- ===== src/Core/Allowlist/Matching.antt =====
-- Which hosts an entry and an allowlist match.
use mathlib.Core.List.{append_assoc}
use hyperbox.Prelude.{
  true, ◌&&◌, Option, none, some, ◌++◌, Text, codes, ends_with, strip_suffix, strip_suffix-append,
  strip_suffix_to, to_ascii_lowercase, text_eq, text_beq_iff, ◌≡◌, refl, ap, ◌∙◌, ◌↔◌, inl, inr,
  arith, Option-cases, is_some,
}
use hyperbox.Core.Allowlist.{AllowlistEntry, exact, wildcard_subdomain, ends_in_dot, matches}

-- What an entry stands for: one host, or every name below a domain.
abbrev pub Names : AllowlistEntry → Text → Type 0
Names (exact hostname) host = host ≡ hostname
Names (wildcard_subdomain suffix) host = (label : Text) × (host ≡ label ++ (codes "." ++ suffix))

ends_in_dot_to :
    (s t : Text) (o : Option Text)
    → strip_suffix s t ≡ o
    → ends_in_dot o ≡ true
    → (label : Text) × (t ≡ label ++ (codes "." ++ s))
unfolding ends_in_dot
ends_in_dot_to s t none p h = cc
ends_in_dot_to s t (some prefix) p h = elim (Option-cases (strip_suffix (codes ".") prefix)) [
  | inl e ↦ cc (ap is_some e)
  | inr (q, e) ↦ (
    q,
    strip_suffix_to s t p
        ∙ ap (λ u. u ++ s) (strip_suffix_to (codes ".") prefix e)
        ∙ append_assoc q (codes ".") s,
  )
]

subdomain_matches :
    (s label : Text)
    → (ends_with s (label ++ (codes "." ++ s))
        && ends_in_dot (strip_suffix s (label ++ (codes "." ++ s))))
      ≡ true
unfolding ends_in_dot
subdomain_matches s label = rw (
  ← append_assoc label (codes ".") s,
  strip_suffix-append s (label ++ codes "."),
  strip_suffix-append (codes ".") label,
)

-- An entry matches exactly the hosts that it stands for, whatever their case.
pub matches_iff :
    (e : AllowlistEntry) (host : Text) → (matches e host ≡ true) ↔ Names e (to_ascii_lowercase host)
unfolding matches
matches_iff (exact hostname) host = text_beq_iff (to_ascii_lowercase host) hostname
matches_iff (wildcard_subdomain s) host = (
  λ h.
      ends_in_dot_to s (to_ascii_lowercase host) (strip_suffix s (to_ascii_lowercase host)) refl
        (ground arith),
  λ n. rw n.1 (subdomain_matches s n.0),
)
