-- ===== src/Stats/Growing.antt =====
-- `scan_file` of src/nginx_stats.rs on a log that grows from one scan to the next.
use mathlib.Core.Option.{Option, none, some}
use mathlib.Core.List.{append_assoc, append-nil}
use cangling_update.Base.{
  ℕ, ◌+◌, ◌-◌, false, List, [], ◌∷◌, ◌++◌, ltb, length, length-append, any, ◌≡◌, refl, sym, ap, ◌∙◌,
  subst, arith, map,
}
use cangling_update.Stats.Scan.{
  batch, Cursor, read_pieces, from_start, start_at, ScanResult, count_lines, scan_file,
}
use cangling_update.Stats.Counts.{Counted, count_lines-Counted, count_lines-bytes_read}
use cangling_update.Stats.Once.{
  read_bytes, read_bytes-append, read_bytes-done, read_bytes-open, read_open, batch-read_bytes,
  is_feed,
}

-- The cursor stands behind these bytes, which have these lines.
pub record ReadTo (bytes : List ℕ) (lines : List (List ℕ)) (c : Cursor) : Type 0 where
  pub so_far : read_bytes ([], []) bytes ≡ (lines, c.pending)
  pub offset : c.offset ≡ length bytes

abbrev pub concat : List (List ℕ) → List ℕ
concat [] = []
concat (p ∷ ps) = p ++ concat ps

one_piece :
    (bytes piece : List ℕ) (lines : List (List ℕ)) (c : Cursor)
    → ReadTo bytes lines c
    → ReadTo
        (bytes ++ piece)
        (lines ++ (batch (c.pending ++ piece)).0)
        (record { offset = c.offset + length piece; pending = (batch (c.pending ++ piece)).1 })
one_piece bytes piece lines c r =
    let no_feed : any is_feed c.pending ≡ false =
      ap (λ st. any is_feed st.1) (sym r.so_far) ∙ read_bytes-open [] [] bytes refl in
    let later : batch (c.pending ++ piece) ≡ read_bytes ([], c.pending) piece =
      batch-read_bytes (c.pending ++ piece)
      ∙ read_bytes-append ([], []) c.pending piece
      ∙ ap (λ st. read_bytes st piece) (read_open [] [] c.pending no_feed) in
    record {
      so_far =
          read_bytes-append ([], []) bytes piece
          ∙ ap (λ st. read_bytes st piece) r.so_far
          ∙ read_bytes-done lines c.pending piece
          ∙ ap (λ st. (lines ++ st.0, st.1)) (sym later);
      offset = ap (λ n. n + length piece) r.offset ∙ sym (length-append bytes piece);
    }

regroup :
    (bytes p ps : List ℕ) (lines more rest : List (List ℕ)) (c : Cursor)
    → ReadTo ((bytes ++ p) ++ ps) ((lines ++ more) ++ rest) c
    → ReadTo (bytes ++ (p ++ ps)) (lines ++ (more ++ rest)) c
regroup bytes p ps lines more rest c r =
    subst (λ b. ReadTo b (lines ++ (more ++ rest)) c) (append_assoc bytes p ps)
      (subst (λ ls. ReadTo ((bytes ++ p) ++ ps) ls c) (append_assoc lines more rest) r)

read_pieces-ReadTo :
    (pieces : List (List ℕ)) (bytes : List ℕ) (lines : List (List ℕ)) (c : Cursor)
    → ReadTo bytes lines c
    → ReadTo (bytes ++ concat pieces) (lines ++ (read_pieces c pieces).0) (read_pieces c pieces).1
unfolding read_pieces
read_pieces-ReadTo [] bytes lines c r = rw (append-nil bytes, append-nil lines) r
read_pieces-ReadTo (p ∷ ps) bytes lines c r =
    let next = one_piece bytes p lines c r in
    let rest = read_pieces-ReadTo ps (bytes ++ p) (lines ++ (batch (c.pending ++ p)).0) _ next in
    regroup bytes p (concat ps) lines (batch (c.pending ++ p)).0 _ _ rest

-- A log that grows by these pieces between its scans.
unfoldable pub scan_log {ℓ} :
    {E : Type ℓ}
    → (List ℕ → Option E)
    → List ℕ
    → Option Cursor
    → List (List (List ℕ))
    → ScanResult
    → ScanResult
unfolding scan_file
scan_log parse bytes c [] r = r
scan_log parse bytes c (pieces ∷ later) r =
    let grown = bytes ++ concat pieces in
    let (end, counted) = scan_file parse c (length grown) pieces r in
    scan_log parse grown (some end) later counted

-- Where a log stands after its scans so far.
record Scanned {ℓ} {E : Type ℓ} (parse : List ℕ → Option E) (bytes : List ℕ) (c : Cursor)
    (r : ScanResult) : Type 0 where
  pub to : ReadTo bytes (read_bytes ([], []) bytes).0 c
  pub counted : Counted parse (read_bytes ([], []) bytes).0 r
  pub bytes_read : r.bytes_read ≡ length bytes

one_scan {ℓ} :
    {E : Type ℓ} (parse : List ℕ → Option E) (bytes : List ℕ) (c : Cursor) (known : Option Cursor)
    (pieces : List (List ℕ)) (r : ScanResult)
    → start_at known (length (bytes ++ concat pieces)) ≡ c
    → Scanned parse bytes c r
    → Scanned parse
        (bytes ++ concat pieces)
        (scan_file parse known (length (bytes ++ concat pieces)) pieces r).0
        (scan_file parse known (length (bytes ++ concat pieces)) pieces r).1
unfolding scan_file
one_scan parse bytes c known pieces r e h =
    let lines : List (List ℕ) = (read_bytes ([], []) bytes).0 in
    let next = read_pieces-ReadTo pieces bytes lines c h.to in
    let same = ap (λ st. st.0) next.so_far in
    let read = r.bytes_read + ((read_pieces c pieces).1.offset - c.offset) in
    let before : ScanResult = record r { bytes_read = read } in
    let counted : Counted parse lines before = record {
      new_lines = h.counted.new_lines;
      parsed_lines = h.counted.parsed_lines;
      skipped_lines = h.counted.skipped_lines;
    } in
    let after = count_lines-Counted parse (read_pieces c pieces).0 lines before counted in
    rw e (record {
      to =
          subst (λ ls. ReadTo (bytes ++ concat pieces) ls (read_pieces c pieces).1) (sym same) next;
      counted =
          subst (λ ls. Counted parse ls (count_lines parse (read_pieces c pieces).0 before))
            (sym same) after;
      bytes_read =
          count_lines-bytes_read parse (read_pieces c pieces).0 before
          ∙ all_read _ _ _ _ _ _ (length-append bytes (concat pieces)) h.bytes_read h.to.offset
              next.offset;
    })
  where
    all_read :
        (whole first more read begin end : ℕ)
        → whole ≡ first + more
        → read ≡ first
        → begin ≡ first
        → end ≡ whole
        → read + (end - begin) ≡ whole
    all_read whole first more read begin end p q s t = omega arith

starts_at_end :
    (bytes more : List ℕ) (end : Cursor)
    → end.offset ≡ length bytes
    → start_at (some end) (length (bytes ++ more)) ≡ end
starts_at_end bytes more end e =
    let longer = length-append bytes more in
    let not_before : ltb (length (bytes ++ more)) end.offset ≡ false = ground arith in
    rw not_before refl

scan_log-Scanned {ℓ} :
    {E : Type ℓ} (parse : List ℕ → Option E) (bytes : List ℕ) (c : Cursor) (known : Option Cursor)
    (scans : List (List (List ℕ))) (r : ScanResult)
    → ((more : List ℕ) → start_at known (length (bytes ++ more)) ≡ c)
    → Scanned parse bytes c r
    → (end : Cursor) × Scanned parse
        (bytes ++ concat (map concat scans))
        end
        (scan_log parse bytes known scans r)
unfolding scan_log
scan_log-Scanned parse bytes c known [] r e h = (c, rw (append-nil bytes) h)
scan_log-Scanned parse bytes c known (pieces ∷ later) r e h =
    let grown = bytes ++ concat pieces in
    let (end, counted) = scan_file parse known (length grown) pieces r in
    let now = one_scan parse bytes c known pieces r (e (concat pieces)) h in
    let (last, rest) =
      scan_log-Scanned parse grown end (some end) later counted
        (λ more. starts_at_end grown more end now.to.offset) now in
    (
      last,
      subst (λ b. Scanned parse b last (scan_log parse grown (some end) later counted))
          (append_assoc bytes (concat pieces) (concat (map concat later))) rest,
    )

abbrev pub nothing_read : ScanResult
nothing_read = record { bytes_read = 0; new_lines = 0; parsed_lines = 0; skipped_lines = 0 }

pub scan_log_once {ℓ} :
    {E : Type ℓ} (parse : List ℕ → Option E) (scans : List (List (List ℕ)))
    → Counted parse
        (read_bytes ([], []) (concat (map concat scans))).0
        (scan_log parse [] none scans nothing_read)
      × ((scan_log parse [] none scans nothing_read).bytes_read
          ≡ length (concat (map concat scans)))
unfolding read_bytes
scan_log_once parse scans =
    let fresh : Scanned parse [] from_start nothing_read = record {
      to = record { so_far = refl; offset = refl };
      counted = record { new_lines = refl; parsed_lines = refl; skipped_lines = refl };
      bytes_read = refl;
    } in
    let (end, scanned) =
      scan_log-Scanned parse [] from_start none scans nothing_read (λ more. refl) fresh in
    (scanned.counted, scanned.bytes_read)
