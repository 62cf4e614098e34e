-- ===== src/Server/Shell/Words.antt =====
-- What a POSIX shell makes of quoted words. The reader below knows blanks, single quotes and double
-- quotes, and refuses every text with a character that could mean more to a shell.
use mathlib.Core.List.{append_assoc, append-nil}
use hyperbox.Prelude.{
  ℕ, Bool, false, ◌||◌, not, Option, none, some, List, [], ◌∷◌, ◌++◌, Text, codes, nat_beq,
  if◌then◌else◌, ◌≡◌, inl, inr, Bool-cases, refl, ap, ◌∙◌, arith, sym,
}
use hyperbox.Server.Shell.{escape_quotes, shell_escape, shell_join}

-- Between words, in a word outside quotes, in single quotes, in double quotes.
pub data Mode : Type 0 where
  gap bare single double : Mode

-- The characters that keep their meaning inside double quotes: not `$`, `` ` ``, `\` or `!`.
pub plain_in_double : ℕ → Bool
plain_in_double c = not (nat_beq c b'$' || nat_beq c 96 || nat_beq c b'\\' || nat_beq c b'!')

abbrev cons_word : Text → Option (List Text) → Option (List Text)
cons_word word none = none
cons_word word (some words) = some (word ∷ words)

-- The words of a text, read from a mode with the word so far; `none` where a quote is left open or
-- a character stands bare. The token rules are those of the POSIX shell's section on quoting.
pub read_words : Mode → Text → Text → Option (List Text)
unfolding plain_in_double
read_words gap word [] = some []
read_words bare word [] = some (word ∷ [])
read_words single word [] = none
read_words double word [] = none
read_words gap word (c ∷ s) =
    let blank = read_words gap [] s in
    let quoted = read_words single [] s in
    let weak = read_words double [] s in
    if nat_beq c 32
    then blank
    else if nat_beq c b'\''
    then quoted
    else if nat_beq c b'"'
    then weak
    else none
read_words bare word (c ∷ s) =
    let blank = cons_word word (read_words gap [] s) in
    let quoted = read_words single word s in
    let weak = read_words double word s in
    if nat_beq c 32
    then blank
    else if nat_beq c b'\''
    then quoted
    else if nat_beq c b'"'
    then weak
    else none
read_words single word (c ∷ s) =
    let close = read_words bare word s in
    let more = read_words single (word ++ (c ∷ [])) s in if nat_beq c b'\'' then close else more
read_words double word (c ∷ s) =
    let close = read_words bare word s in
    let more = read_words double (word ++ (c ∷ [])) s in
    if nat_beq c b'"' then close else if plain_in_double c then more else none

quote_step :
    (word t : Text)
    → read_words single word (codes "'\"'\"'" ++ t) ≡ read_words single (word ++ (b'\'' ∷ [])) t
unfolding read_words
quote_step word t = refl

plain_step :
    (word : Text) (c : ℕ) (t : Text)
    → nat_beq c b'\'' ≡ false
    → read_words single word (c ∷ t) ≡ read_words single (word ++ (c ∷ [])) t
unfolding read_words
plain_step word c t h = rw h

escape_quotes-cons :
    (c : ℕ) (s : Text)
    → escape_quotes (c ∷ s)
      ≡ (if nat_beq c b'\'' then codes "'\"'\"'" ++ escape_quotes s else c ∷ escape_quotes s)
unfolding escape_quotes
escape_quotes-cons c s = refl

-- Inside single quotes the escaped text reads as the text.
read_words-escaped :
    (word value rest : Text)
    → read_words single word (escape_quotes value ++ rest) ≡ read_words single (word ++ value) rest
read_words-escaped word [] rest = unfold escape_quotes in rw (append-nil word)
read_words-escaped word (c ∷ s) rest = elim (Bool-cases (nat_beq c b'\'')) [
  | inl q ↦
      let e : c ≡ b'\'' = ground arith in
      rw (escape_quotes-cons c s, q, quote_step word (escape_quotes s ++ rest), e)
        (read_words-escaped (word ++ (b'\'' ∷ [])) s rest
          ∙ ap (λ t. read_words single t rest) (append_assoc word (b'\'' ∷ []) s))
  | inr n ↦
      rw (escape_quotes-cons c s, n, plain_step word c (escape_quotes s ++ rest) n)
        (read_words-escaped (word ++ (c ∷ [])) s rest
          ∙ ap (λ t. read_words single t rest) (append_assoc word (c ∷ []) s))
]

shell_join-cons :
    (part next : Text) (rest : List Text)
    → shell_join (part ∷ next ∷ rest) ≡ shell_escape part ++ (codes " " ++ shell_join (next ∷ rest))
unfolding shell_join
shell_join-cons part next rest = refl

shell_join-one : (part : Text) → shell_join (part ∷ []) ≡ shell_escape part ++ []
unfolding shell_join
shell_join-one part = sym (append-nil (shell_escape part))

open_step : (t : Text) → read_words gap [] (b'\'' ∷ t) ≡ read_words single [] t
unfolding read_words
open_step t = refl

close_step : (word t : Text) → read_words single word (b'\'' ∷ t) ≡ read_words bare word t
unfolding read_words
close_step word t = refl

blank_step :
    (word t : Text) → read_words bare word (codes " " ++ t) ≡ cons_word word (read_words gap [] t)
unfolding read_words
blank_step word t = refl

end_step : (word : Text) → read_words bare word [] ≡ some (word ∷ [])
unfolding read_words
end_step word = refl

-- A quoted word, read where a word may start, is that word, and the reader goes on behind it.
read_words-shell_escape :
    (value rest : Text)
    → read_words gap [] (shell_escape value ++ rest) ≡ read_words bare value rest
unfolding shell_escape
read_words-shell_escape value rest =
    open_step ((escape_quotes value ++ codes "'") ++ rest)
    ∙ ap (read_words single []) (append_assoc (escape_quotes value) (codes "'") rest)
    ∙ read_words-escaped [] value (b'\'' ∷ rest)
    ∙ close_step value rest

-- A shell reads a joined command back as exactly its words, whatever characters they hold.
pub read_words-shell_join :
    (command : List Text) → read_words gap [] (shell_join command) ≡ some command
read_words-shell_join [] = unfold shell_join read_words in refl
read_words-shell_join (part ∷ []) =
    ap (read_words gap []) (shell_join-one part) ∙ read_words-shell_escape part [] ∙ end_step part
read_words-shell_join (part ∷ next ∷ rest) =
    ap (read_words gap []) (shell_join-cons part next rest)
    ∙ read_words-shell_escape part (codes " " ++ shell_join (next ∷ rest))
    ∙ blank_step part (shell_join (next ∷ rest))
    ∙ ap (cons_word part) (read_words-shell_join (next ∷ rest))
