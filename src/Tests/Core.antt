-- ===== src/Tests/Core.antt =====
-- Runs of crates/hyperbox-core.
use hyperbox.Prelude.{
  map, false, true, ◌≡◌, refl, List, [], ◌∷◌, ◌↔◌, Text, codes, to_ascii_lowercase, any,
}
use hyperbox.Core.Error.{ok}
use hyperbox.Core.Template.{Template, list, with_defaults}
use hyperbox.Core.Allowlist.{
  normalize_allowlist_domains, AllowlistEntry, wildcard_subdomain, exact, parse, to_pattern_string,
  as_str, matches, Allowlist, parse_all, allows, to_strings,
}
use hyperbox.Core.Allowlist.Syntax.{parse-to_pattern_string}
use hyperbox.Core.Allowlist.Labels.{parse-IsDomain, IsDomain}
use hyperbox.Core.Allowlist.Matching.{Names, matches_iff}
use hyperbox.Core.Allowlist.Dedup.{accepts, allows-parse_all, parse_all-to_strings}

abbrev raw : Text
raw = codes " *.GitHub.com"

abbrev entry : AllowlistEntry
entry = wildcard_subdomain (codes "github.com")

raw_accepted : parse raw ≡ ok entry
unfolding parse
raw_accepted = refl

parse-to_pattern_string_example : parse (to_pattern_string entry) ≡ ok entry
parse-to_pattern_string_example = parse-to_pattern_string raw entry raw_accepted

parse-IsDomain_example : IsDomain (as_str entry)
parse-IsDomain_example = parse-IsDomain raw entry raw_accepted

abbrev host : Text
host = codes "Api.GitHub.com"

matches_iff_example : (matches entry host ≡ true) ↔ Names entry (to_ascii_lowercase host)
matches_iff_example = matches_iff entry host

abbrev domains : List Text
domains = raw ∷ codes "pypi.org" ∷ codes "PyPI.org" ∷ []

abbrev parsed : Allowlist
parsed = entry ∷ exact (codes "pypi.org") ∷ []

parse_domains : parse_all domains ≡ ok parsed
unfolding parse_all
parse_domains = refl

allows-parse_all_example : allows parsed host ≡ any (accepts host) domains
allows-parse_all_example = allows-parse_all host domains parsed parse_domains

parse_all-to_strings_example : parse_all (to_strings parsed) ≡ ok parsed
parse_all-to_strings_example = parse_all-to_strings domains parsed parse_domains

-- The cases of the source's unit tests.
parse_test : parse (codes " *.GitHub.com ") ≡ ok entry
unfolding parse
parse_test = refl

matches_test :
    (matches entry (codes "api.GITHUB.com") ≡ true) × (matches entry (codes "github.com") ≡ false)
unfolding matches
matches_test = (refl, refl)

normalize_domains_test :
    normalize_allowlist_domains (codes "Example.com" ∷ codes "example.com" ∷ codes "pypi.org" ∷ [])
    ≡ ok (codes "example.com" ∷ codes "pypi.org" ∷ [])
unfolding normalize_allowlist_domains
normalize_domains_test = refl

names_sorted :
    map (λ (t : Template). t.name) (list with_defaults)
    ≡ codes "golang:1.22"
      ∷ codes "node:18"
      ∷ codes "node:20"
      ∷ codes "python:3.11"
      ∷ codes "python:3.12"
      ∷ codes "rust:1.75"
      ∷ codes "ubuntu:22.04"
      ∷ []
unfolding list with_defaults
names_sorted = refl
