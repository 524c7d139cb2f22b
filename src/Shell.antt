-- ===== src/Shell.antt =====
-- `shell_quote` of src/jar_store.rs, src/jar_upgrade.rs and src/hosts.rs, which is the same in all three,
-- and how a POSIX shell reads a word.
use mathlib.Core.List.{append_assoc}
use cangling_update.Base.{
  ℕ, Bool, true, ◌||◌, ◌==◌, [], ◌∷◌, ◌++◌, Option, none, some, if◌then◌else◌, ◌≡◌, refl, sym, ap,
  ◌∙◌, arith, Bool-cases, inl, inr,
}
use cangling_update.Text.{Text}

-- `replace('\'', "'\\''")`.
abbrev pub escaped : Text → Text
escaped [] = []
escaped (c ∷ cs) =
    let rest = escaped cs in if c == b'\'' then b'\'' ∷ b'\\' ∷ b'\'' ∷ b'\'' ∷ rest else c ∷ rest

unfoldable pub shell_quote : Text → Text
shell_quote value = b'\'' ∷ (escaped value ++ b'\'' ∷ [])

pub data Mode : Type 0 where
  plain in_quotes after_backslash : Mode

-- What ends a word: a blank, a line feed or an operator.
abbrev pub ends_word : ℕ → Bool
ends_word c =
    c == b' '
    || c == b'\t'
    || c == b'\n'
    || c == b';'
    || c == b'&'
    || c == b'|'
    || c == b'<'
    || c == b'>'
    || c == b'('
    || c == b')'

-- Outside of quotes these are read in ways that are not described here.
abbrev is_special : ℕ → Bool
is_special c = c == b'"' || c == b'$' || c == b'`' || c == b'*' || c == b'?' || c == b'['

abbrev pub in_front : ℕ → Option (Text × Text) → Option (Text × Text)
in_front c none = none
in_front c (some (word, rest)) = some (c ∷ word, rest)

-- The word in front of a text, and what comes after it.
unfoldable pub read_word : Mode → Text → Option (Text × Text)
read_word plain [] = some ([], [])
read_word plain (c ∷ cs) =
    let quoted = read_word in_quotes cs in
    let escape = read_word after_backslash cs in
    let more = read_word plain cs in
    if ends_word c
    then some ([], c ∷ cs)
    else if c == b'\''
    then quoted
    else if c == b'\\'
    then escape
    else if is_special c
    then none
    else in_front c more
read_word in_quotes [] = none
read_word in_quotes (c ∷ cs) =
    let after = read_word plain cs in
    let more = read_word in_quotes cs in if c == b'\'' then after else in_front c more
read_word after_backslash [] = none
read_word after_backslash (c ∷ cs) = in_front c (read_word plain cs)

-- A word ends before the text.
abbrev pub starts_after_word : Text → Bool
starts_after_word [] = true
starts_after_word (c ∷ cs) = ends_word c

read_end : (rest : Text) → starts_after_word rest ≡ true → read_word plain rest ≡ some ([], rest)
unfolding read_word
read_end [] h = refl
read_end (c ∷ cs) h = rw h refl

read-escaped :
    (value rest : Text)
    → starts_after_word rest ≡ true
    → read_word in_quotes (escaped value ++ b'\'' ∷ rest) ≡ some (value, rest)
unfolding read_word
read-escaped [] rest h = read_end rest h
read-escaped (c ∷ cs) rest h = elim (Bool-cases (c == b'\'')) [
  | inl e ↦
      let same : c ≡ b'\'' = ground (arith, e) in
      rw e (ap (in_front b'\'') (read-escaped cs rest h) ∙ ap (λ d. some (d ∷ cs, rest)) (sym same))
  | inr e ↦ rw (e, e) (ap (in_front c) (read-escaped cs rest h))
]

-- A shell reads a quoted value back as one word with the very same characters, whatever they are, where a
-- word may end behind it.
pub shell_quote_read_back :
    (value rest : Text)
    → starts_after_word rest ≡ true
    → read_word plain (shell_quote value ++ rest) ≡ some (value, rest)
unfolding shell_quote read_word
shell_quote_read_back value rest h =
    ap (λ t. read_word in_quotes t) (append_assoc (escaped value) (b'\'' ∷ []) rest)
    ∙ read-escaped value rest h
