-- ===== src/Server/Naming.antt =====
-- The names of automatic sessions and of ensure markers in crates/hyperbox-server/src/runtime.rs.
pub mod Shape
use Prim.Native.Nat.{bit_xor}
use hyperbox.Prelude.{
  ℕ, zero, suc, ◌+◌, ◌-◌, ◌*◌, ◌/◌, ◌%◌, ◌^◌, Bool, true, false, ◌&&◌, Option, none, some, List, [],
  ◌∷◌, ◌++◌, map, Text, codes, leb, ltb, nat_beq, is_empty, if◌then◌else◌, take, trim_matches,
  is_ascii_uppercase, ◌≡◌, refl,
}
use hyperbox.Core.Allowlist.{Allowlist, to_strings}
use hyperbox.Core.Config.{NetworkMode, none_mode, full_mode, allowlist_mode}

-- The bytes of one code point in UTF-8, and of a text, as `as_bytes`.
unfoldable pub utf8_char : ℕ → List ℕ
utf8_char c =
    if ltb c 128
    then c ∷ []
    else if ltb c 2048
    then (192 + c / 64) ∷ (128 + c % 64) ∷ []
    else if ltb c 65536
    then (224 + c / 4096) ∷ (128 + c / 64 % 64) ∷ (128 + c % 64) ∷ []
    else (240 + c / 262144) ∷ (128 + c / 4096 % 64) ∷ (128 + c / 64 % 64) ∷ (128 + c % 64) ∷ []

unfoldable pub utf8 : Text → List ℕ
unfolding utf8_char
utf8 [] = []
utf8 (c ∷ s) = utf8_char c ++ utf8 s

fnv1a64_from : ℕ → List ℕ → ℕ
fnv1a64_from hash [] = hash
fnv1a64_from hash (byte ∷ bytes) = fnv1a64_from (bit_xor hash byte * 0x100000001b3 % 2 ^ 64) bytes

unfoldable pub fnv1a64 : List ℕ → ℕ
unfolding fnv1a64_from
fnv1a64 bytes = fnv1a64_from 0xcbf29ce484222325 bytes

hex_digit : ℕ → ℕ
hex_digit d = if ltb d 10 then b'0' + d else b'a' + (d - 10)

-- `count` hexadecimal digits of `n`, least significant last, before `out`.
hex_digits : ℕ → ℕ → Text → Text
unfolding hex_digit
hex_digits zero n out = out
hex_digits (suc count) n out = hex_digits count (n / 16) (hex_digit (n % 16) ∷ out)

-- `{:016x}` of a `u64`
unfoldable pub hex16 : ℕ → Text
unfolding hex_digits
hex16 n = hex_digits 16 n []

sanitize_char : ℕ → ℕ
unfolding is_ascii_uppercase
sanitize_char ch =
    if leb b'a' ch && leb ch b'z'
    then ch
    else if leb b'0' ch && leb ch b'9'
    then ch
    else if is_ascii_uppercase ch
    then ch + 32
    else b'-'

abbrev pub is_dash : ℕ → Bool
is_dash ch = nat_beq ch b'-'

unfoldable pub sanitize_affinity_component : Text → ℕ → Text
unfolding sanitize_char
sanitize_affinity_component raw max_len =
    let trimmed =
      trim_matches is_dash (take max_len (trim_matches is_dash (map sanitize_char raw))) in
    if is_empty trimmed then codes "sandbox" else trimmed

abbrev pub or_empty : Option Text → Text
or_empty none = []
or_empty (some t) = t

-- `join(",")`
unfoldable pub join_commas : List Text → Text
join_commas [] = []
join_commas (t ∷ []) = t
join_commas (t ∷ u ∷ rest) = t ++ (codes "," ++ join_commas (u ∷ rest))

-- What the scope says of the network.
unfoldable pub network_scope : NetworkMode → Text
unfolding to_strings join_commas
network_scope none_mode = codes "none"
network_scope full_mode = codes "full"
network_scope (allowlist_mode domains) =
    if is_empty domains
    then codes "allowlist"
    else codes "allowlist:" ++ join_commas (to_strings domains)

-- The text that is hashed. Both `format!` and the `push_str` calls of the source lay it out so.
unfoldable pub auto_run_scope : Text → Option Text → NetworkMode → Text
unfolding network_scope
auto_run_scope template workspace_dir network =
    template ++ (codes "\n" ++ (or_empty workspace_dir ++ (codes "\n" ++ network_scope network)))

unfoldable pub derive_auto_run_affinity_name : Text → Option Text → NetworkMode → Text
unfolding auto_run_scope sanitize_affinity_component hex16 fnv1a64 utf8
derive_auto_run_affinity_name template workspace_dir network =
    codes "auto-"
    ++ (sanitize_affinity_component template 18
        ++ (codes "-" ++ hex16 (fnv1a64 (utf8 (auto_run_scope template workspace_dir network)))))
