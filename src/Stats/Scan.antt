-- ===== src/Stats/Scan.antt =====
-- `scan_file` of src/nginx_stats.rs: a log is read from where the last scan ended, in pieces of any size, and
-- its complete lines are counted. The pieces that `read` gives are an argument, and so is the reading of a
-- line, with the check for UTF-8 before it.
use mathlib.Core.Option.{Option, none, some}
use cangling_update.Base.{
  ℕ, ◌+◌, ◌-◌, Bool, not, ◌==◌, List, [], ◌∷◌, ◌++◌, ltb, if◌then◌else◌, is_empty, length, keep,
}
use cangling_update.Text.{split, split_by}

abbrev pub feed : ℕ
feed = b'\n'

-- Up to the last line feed, and what is behind it.
abbrev pub with_char : ℕ → List ℕ → Option (List ℕ × List ℕ) → Option (List ℕ × List ℕ)
with_char c cs (some (head, rest)) = some (c ∷ head, rest)
with_char c cs none = if c == feed then some (c ∷ [], cs) else none

unfoldable pub split_at_last : List ℕ → Option (List ℕ × List ℕ)
split_at_last [] = none
split_at_last (c ∷ cs) = with_char c cs (split_at_last cs)

abbrev pub is_filled : List ℕ → Bool
is_filled l = not (is_empty l)

abbrev pub cut_lines : List ℕ → Option (List ℕ × List ℕ) → List (List ℕ) × List ℕ
cut_lines pending none = ([], pending)
cut_lines pending (some (head, rest)) = (keep is_filled (split feed head), rest)

-- The lines of one batch, and what stays pending.
unfoldable pub batch : List ℕ → List (List ℕ) × List ℕ
unfolding split_at_last split_by
batch pending = cut_lines pending (split_at_last pending)

-- `nginx_log_cursors`: how far a file was read, and what of it waits for the end of its line.
pub record Cursor : Type 0 where
  pub offset : ℕ
  pub pending : List ℕ

-- The loop over the pieces that are read.
unfoldable pub read_pieces : Cursor → List (List ℕ) → List (List ℕ) × Cursor
unfolding batch
read_pieces c [] = ([], c)
read_pieces c (piece ∷ pieces) =
    let (lines, rest) = batch (c.pending ++ piece) in
    let (more, end) =
      read_pieces (record { offset = c.offset + length piece; pending = rest }) pieces in
    (lines ++ more, end)

-- A file that is shorter than it was is read anew.
abbrev pub from_start : Cursor
from_start = record { offset = 0; pending = [] }

abbrev pub start_at : Option Cursor → ℕ → Cursor
start_at none size = from_start
start_at (some c) size = if ltb size c.offset then from_start else c

-- What one scan counts.
pub record ScanResult : Type 0 where
  pub bytes_read : ℕ
  pub new_lines : ℕ
  pub parsed_lines : ℕ
  pub skipped_lines : ℕ

abbrev pub count_line {ℓ} : {E : Type ℓ} → Option E → ScanResult → ScanResult
count_line (some e) r = record r { new_lines = r.new_lines + 1; parsed_lines = r.parsed_lines + 1 }
count_line none r = record r { new_lines = r.new_lines + 1; skipped_lines = r.skipped_lines + 1 }

abbrev pub count_lines {ℓ} :
    {E : Type ℓ} → (List ℕ → Option E) → List (List ℕ) → ScanResult → ScanResult
count_lines parse [] r = r
count_lines parse (l ∷ ls) r = count_lines parse ls (count_line (parse l) r)

unfoldable pub scan_file {ℓ} :
    {E : Type ℓ}
    → (List ℕ → Option E)
    → Option Cursor
    → ℕ
    → List (List ℕ)
    → ScanResult
    → Cursor × ScanResult
unfolding read_pieces
scan_file parse cursor size pieces result =
    let begin = start_at cursor size in
    let (lines, end) = read_pieces begin pieces in
    let read = result.bytes_read + (end.offset - begin.offset) in
    (end, count_lines parse lines (record result { bytes_read = read }))
