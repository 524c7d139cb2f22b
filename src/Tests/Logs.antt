-- ===== src/Tests/Logs.antt =====
-- A log that is scanned three times, while its last line is still being written.
use mathlib.Core.Option.{Option, none, some}
use cangling_update.Base.{ℕ, List, [], ◌∷◌, ◌≡◌, ◌==◌, if◌then◌else◌, refl, length, map}
use cangling_update.Text.{text}
use cangling_update.Stats.Scan.{scan_file}
use cangling_update.Stats.Once.{read_bytes}
use cangling_update.Stats.Counts.{Counted}
use cangling_update.Stats.Growing.{concat, scan_log, nothing_read, scan_log_once}

-- Only lines that start with a digit 1 are well formed.
abbrev starts_with_one : List ℕ → Option ℕ
starts_with_one [] = none
starts_with_one (c ∷ l) = if c == b'1' then some (length l) else none

abbrev three_scans : List (List (List ℕ))
three_scans = (text "12" ∷ text "3\n\nx\n1" ∷ []) ∷ [] ∷ (text "45" ∷ text "\n1 open" ∷ []) ∷ []

scan_log_once_example :
    Counted starts_with_one
      (read_bytes ([], []) (concat (map concat three_scans))).0
      (scan_log starts_with_one [] none three_scans nothing_read)
    × ((scan_log starts_with_one [] none three_scans nothing_read).bytes_read
        ≡ length (concat (map concat three_scans)))
scan_log_once_example = scan_log_once starts_with_one three_scans

three_lines :
    scan_log starts_with_one [] none three_scans nothing_read
    ≡ record { bytes_read = 17; new_lines = 3; parsed_lines = 2; skipped_lines = 1 }
unfolding scan_log scan_file text
three_lines = refl
