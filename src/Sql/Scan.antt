-- ===== src/Sql/Scan.antt =====
-- How PostgreSQL splits a statement at its quotes: the reading of one quoted token, and a scan that
-- tells a single statement from several. Comments are not part of it; no template holds one.
pub mod Literals
pub mod Statements
pub mod Pages
use cangling_update.Base.{
  ℕ, Bool, true, false, ◌||◌, List, [], ◌∷◌, Option, none, some, ◌==◌, if◌then◌else◌,
}
use cangling_update.Text.{Text}

abbrev pub in_front : ℕ → Option (Text × Text) → Option (Text × Text)
in_front c none = none
in_front c (some (t, rest)) = some (c ∷ t, rest)

-- What stands in quotes `q`, from behind the opening one, a doubled quote for one; and what follows.
pub inside : ℕ → Text → Option (Text × Text)
inside q [] = none
inside q (c ∷ []) = if c == q then some ([], []) else none
inside q (c ∷ d ∷ cs) =
    let one = inside q (d ∷ cs) in
    let two = inside q cs in
    if c == q then if d == q then in_front c two else some ([], d ∷ cs) else in_front c one

pub read_quoted : ℕ → Text → Option (Text × Text)
read_quoted q [] = none
read_quoted q (c ∷ cs) = if c == q then inside q cs else none

abbrev pub is_quote : ℕ → Bool
is_quote c = c == b'\'' || c == b'"'

-- No `;` outside quotes and no quote left open; `some q` is within quotes `q`.
pub single : Option ℕ → Text → Bool
single none [] = true
single (some q) [] = false
single none (c ∷ cs) =
    let quote = single (some c) cs in
    let more = single none cs in if is_quote c then quote else if c == b';' then false else more
single (some q) (c ∷ cs) = single (if c == q then none else some q) cs
