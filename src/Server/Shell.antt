-- ===== src/Server/Shell.antt =====
-- The quoting of words for `/bin/sh` in crates/hyperbox-server/src/runtime.rs.
pub mod Words
use hyperbox.Prelude.{
  ℕ, Bool, true, false, List, [], ◌∷◌, ◌++◌, Text, codes, nat_beq, if◌then◌else◌, ◌≡◌, refl,
}

-- `value.replace('\'', "'\"'\"'")`
escape_quotes : Text → Text
escape_quotes [] = []
escape_quotes (c ∷ s) =
    let rest = escape_quotes s in if nat_beq c b'\'' then codes "'\"'\"'" ++ rest else c ∷ rest

unfoldable pub shell_escape : Text → Text
unfolding escape_quotes
shell_escape value = codes "'" ++ (escape_quotes value ++ codes "'")

-- `.map(shell_escape).collect().join(" ")`
unfoldable pub shell_join : List Text → Text
unfolding shell_escape
shell_join [] = []
shell_join (part ∷ []) = shell_escape part
shell_join (part ∷ next ∷ rest) = shell_escape part ++ (codes " " ++ shell_join (next ∷ rest))
