-- ===== src/Core/Allowlist.antt =====
-- The allowlist of crates/hyperbox-core/src/config.rs: parsing, normal forms, and matching of hosts.
pub mod Syntax
pub mod Labels
pub mod Matching
pub mod Dedup
use hyperbox.Prelude.{
  ℕ, Bool, true, false, not, ◌&&◌, ◌||◌, Option, none, some, List, [], ◌∷◌, ◌++◌, map, Text, codes,
  any, all, contains, is_empty, if◌then◌else◌, ◌==◌, text_eq, nat_beq, strip_prefix, strip_suffix,
  starts_with, ends_with, is_some, contains_char, contains_text, trim, to_ascii_lowercase,
  is_whitespace, is_ascii_alphanumeric, ◌≡◌, refl,
}
use hyperbox.Core.Error.{Result, ok, err, ◌>>=◌}

pub data AllowlistEntry : Type 0 where
  exact wildcard_subdomain : Text → AllowlistEntry

-- One constructor for each message of `parse`, with the domain that the message quotes.
pub data ParseError : Type 0 where
  empty_domain : ParseError
  not_bare_domain invalid_wildcard not_a_domain unsupported_characters : Text → ParseError

-- `as_str`
unfoldable pub as_str : AllowlistEntry → Text
as_str (exact hostname) = hostname
as_str (wildcard_subdomain suffix) = suffix

pub is_wildcard : AllowlistEntry → Bool
is_wildcard (exact hostname) = false
is_wildcard (wildcard_subdomain suffix) = true

unfoldable pub to_pattern_string : AllowlistEntry → Text
to_pattern_string (exact hostname) = hostname
to_pattern_string (wildcard_subdomain suffix) = codes "*." ++ suffix

-- The `if let` of `parse` that chooses the variant, by what follows a leading `*.`.
entry_by : Text → Option Text → Result ParseError AllowlistEntry
entry_by domain (some suffix) =
    if is_empty suffix || contains_char b'*' suffix
    then err (invalid_wildcard domain)
    else ok (wildcard_subdomain suffix)
entry_by domain none =
    if contains_char b'*' domain then err (invalid_wildcard domain) else ok (exact domain)

entry_of : Text → Result ParseError AllowlistEntry
unfolding entry_by
entry_of domain = entry_by domain (strip_prefix (codes "*.") domain)

-- The characters that a hostname may hold.
abbrev pub hostname_char : ℕ → Bool
hostname_char ch = is_ascii_alphanumeric ch || nat_beq ch b'-' || nat_beq ch b'.'

-- The checks of `parse` on the hostname.
check_hostname : Text → Text → AllowlistEntry → Result ParseError AllowlistEntry
check_hostname domain hostname entry =
    if starts_with (codes ".") hostname
      || ends_with (codes ".") hostname
      || contains_text (codes "..") hostname
    then err (not_a_domain domain)
    else if not (all hostname_char hostname)
    then err (unsupported_characters domain)
    else ok entry

-- The body of `parse` after the trimming.
parse_domain : Text → Result ParseError AllowlistEntry
parse_domain domain =
    if is_empty domain
    then err empty_domain
    else if contains_char b'/' domain || contains_char b':' domain || any is_whitespace domain
    then err (not_bare_domain domain)
    else do entry ← entry_of domain; check_hostname domain (as_str entry) entry

unfoldable pub parse : Text → Result ParseError AllowlistEntry
unfolding parse_domain entry_of check_hostname as_str trim to_ascii_lowercase is_whitespace
    is_ascii_alphanumeric
parse raw = parse_domain (to_ascii_lowercase (trim raw))

-- What is left of the host before the wildcard's suffix must end in a dot.
ends_in_dot : Option Text → Bool
ends_in_dot none = false
ends_in_dot (some prefix) = ends_with (codes ".") prefix

-- The host is compared in lower case.
unfoldable pub matches : AllowlistEntry → Text → Bool
unfolding to_ascii_lowercase ends_in_dot
matches (exact hostname) host = to_ascii_lowercase host == hostname
matches (wildcard_subdomain suffix) host =
    ends_with suffix (to_ascii_lowercase host)
    && ends_in_dot (strip_suffix suffix (to_ascii_lowercase host))

-- `struct Allowlist(Vec<AllowlistEntry>)`
abbrev pub Allowlist : Type 0
Allowlist = List AllowlistEntry

-- The loop of `Allowlist::parse`: `seen` holds the pattern of each entry that was kept.
parse_entries : List Text → List Text → Result ParseError Allowlist
unfolding parse to_pattern_string
parse_entries seen [] = ok []
parse_entries seen (raw ∷ domains) = do
  entry ← parse raw
  let normalized = to_pattern_string entry
  elim (contains seen normalized) [
    | true ↦ parse_entries seen domains
    | false ↦ do entries ← parse_entries (normalized ∷ seen) domains; ok (entry ∷ entries)
  ]

unfoldable pub parse_all : List Text → Result ParseError Allowlist
unfolding parse_entries
parse_all domains = parse_entries [] domains

unfoldable pub allows : Allowlist → Text → Bool
unfolding matches
allows entries host = any (λ entry. matches entry host) entries

unfoldable pub to_strings : Allowlist → List Text
unfolding to_pattern_string
to_strings entries = map to_pattern_string entries

unfoldable pub normalize_allowlist_domains : List Text → Result ParseError (List Text)
unfolding parse_all to_strings
normalize_allowlist_domains domains = do allowlist ← parse_all domains; ok (to_strings allowlist)
