-- ===== src/Storage/Fstab/Twice.antt =====
-- A mount that is stored twice is stored once.
use mathlib.Core.List.{append_assoc}
use cangling_update.Base.{
  ℕ, sym, true, false, List, [], ◌∷◌, ◌++◌, any, map, ◌≡◌, refl, arith, All, is_empty, Bool-cases,
  inl, inr, ◌∙◌, ap, any-append,
}
use cangling_update.Text.{
  Text, text, text_eq, text_eq_refl, trim, trim_matches, trim_end_matches, lines, split_whitespace,
  is_whitespace, split_by-append, split_by_whole, IsLine, is_return, is_feed, lines-IsLine,
  lines-unlines, lines-append, pad, lines_line, trim_start_matches_kept,
}
use cangling_update.Storage.Fstab.{is_entry, entry, settle, is_stale, persist_fstab}

-- Fields that make one line of fstab: a source and a mount point of one word each, and a type and
-- options on one line.
pub record CleanFields (fstype src mnt opts : Text) : Type 0 where
  pub some_src : is_empty src ≡ false
  pub src_word : any is_whitespace src ≡ false
  pub some_mnt : is_empty mnt ≡ false
  pub mnt_word : any is_whitespace mnt ≡ false
  pub no_comment : text_eq (text "cangling-storage") mnt ≡ false
  pub fstype_line : IsLine fstype
  pub opts_line : IsLine opts

text_feed : text "\n# cangling-storage " ≡ b'\n' ∷ text "# cangling-storage "
unfolding text
text_feed = refl

lines_nil : lines [] ≡ []
unfolding lines
lines_nil = refl

word-IsLine : (w : Text) → any is_whitespace w ≡ false → IsLine w
unfolding is_whitespace
word-IsLine [] h = (refl, refl)
word-IsLine (c ∷ w) h = let (f, r) = word-IsLine w (ground arith) in (ground arith, ground arith)

IsLine-append : (a b : Text) → IsLine a → IsLine b → IsLine (a ++ b)
IsLine-append a b (f, r) (g, s) =
    (any-append is_feed a b ∙ rw (f, g), any-append is_return a b ∙ rw (r, s))

IsLine-space : (t : Text) → IsLine t → IsLine (b' ' ∷ t)
IsLine-space t (f, r) = (f, r)

-- The text ends in a character that trimming leaves.
abbrev KeepsEnd : Text → Type 0
KeepsEnd t = (is_empty t ≡ false) × (trim_end_matches is_whitespace t ≡ t)

KeepsEnd-append : (a b : Text) → KeepsEnd b → KeepsEnd (a ++ b)
unfolding trim_end_matches
KeepsEnd-append [] b k = k
KeepsEnd-append (x ∷ a) b k =
    let (some_text, kept) = KeepsEnd-append a b k in (refl, rw kept (ground (arith, some_text)))

KeepsEnd-cons : (x : ℕ) (t : Text) → KeepsEnd t → KeepsEnd (x ∷ t)
KeepsEnd-cons x t k = KeepsEnd-append (x ∷ []) t k

trim-KeepsEnd :
    (src t : Text)
    → is_empty src ≡ false
    → any is_whitespace src ≡ false
    → KeepsEnd t
    → trim (src ++ t) ≡ src ++ t
unfolding trim_matches
trim-KeepsEnd [] t e w k = absurd (cc)
trim-KeepsEnd (x ∷ src) t e w k =
    rw (trim_start_matches_kept is_whitespace x (src ++ t) (ground arith))
      (KeepsEnd-append (x ∷ src) t k).1

module _ {fstype src mnt opts : Text} (c : CleanFields fstype src mnt opts) where
  entry-IsLine : IsLine (entry fstype src mnt opts)
  unfolding entry
  entry-IsLine =
      let t1 = opts ++ text " 0 0" in
      let t2 = fstype ++ (b' ' ∷ t1) in
      let t3 = mnt ++ (b' ' ∷ t2) in
      let l1 = IsLine-append opts (text " 0 0") c.opts_line (unfold text in (refl, refl)) in
      let l2 = IsLine-append fstype (b' ' ∷ t1) c.fstype_line (IsLine-space t1 l1) in
      let l3 = IsLine-append mnt (b' ' ∷ t2) (word-IsLine mnt c.mnt_word) (IsLine-space t2 l2) in
      IsLine-append src (b' ' ∷ t3) (word-IsLine src c.src_word) (IsLine-space t3 l3)

  is_entry-entry : is_entry mnt (entry fstype src mnt opts) ≡ true
  unfolding is_entry entry split_whitespace
  is_entry-entry =
      rw
        (
          split_by-append is_whitespace b' ' src _ (unfold is_whitespace in refl),
          split_by-append is_whitespace b' ' mnt _ (unfold is_whitespace in refl),
          split_by_whole is_whitespace src c.src_word,
          split_by_whole is_whitespace mnt c.mnt_word,
          c.some_src,
          c.some_mnt,
        )
        (text_eq_refl mnt)

  trim-entry : trim (entry fstype src mnt opts) ≡ entry fstype src mnt opts
  unfolding entry
  trim-entry = trim-KeepsEnd src _ c.some_src c.src_word (
      KeepsEnd-cons b' ' _ (
        KeepsEnd-append mnt _ (
          KeepsEnd-cons b' ' _ (
            KeepsEnd-append fstype _ (
              KeepsEnd-cons b' ' _ (
                KeepsEnd-append opts (text " 0 0")
                  (unfold text trim_end_matches is_whitespace in (refl, refl))))))))

  settle-entry :
      (l : Text)
      → IsLine l
      → IsLine (settle mnt (entry fstype src mnt opts) l)
        × (is_entry mnt (settle mnt (entry fstype src mnt opts) l) ≡ is_entry mnt l)
        × (is_stale mnt (entry fstype src mnt opts) (settle mnt (entry fstype src mnt opts) l)
            ≡ false)
  settle-entry l h = elim (Bool-cases (is_entry mnt l)) [
    | inr e ↦ rw (e, e) (h, refl, refl)
    | inl e ↦ elim (Bool-cases (text_eq (trim l) (entry fstype src mnt opts))) [
      | inl same ↦ rw (e, same) (rw (e, same) (h, refl, refl))
      | inr stale ↦
          rw (e, stale)
            (
              entry-IsLine,
              is_entry-entry,
              rw (is_entry-entry, trim-entry, text_eq_refl (entry fstype src mnt opts)),
            )
    ]
  ]

  settled :
      (ls : List Text)
      → All IsLine ls
      → All IsLine (map (settle mnt (entry fstype src mnt opts)) ls)
        × (any (is_entry mnt) (map (settle mnt (entry fstype src mnt opts)) ls)
            ≡ any (is_entry mnt) ls)
        × (any
              (is_stale mnt (entry fstype src mnt opts))
              (map (settle mnt (entry fstype src mnt opts)) ls)
            ≡ false)
  settled [] a = (tt, refl, refl)
  settled (l ∷ ls) (h, a) =
      let (line, same, settled_line) = settle-entry l h in
      let (rest, rest_same, rest_settled) = settled ls a in
      ((line, rest), rw (same, rest_same), rw (settled_line, rest_settled))

  comment-IsLine : IsLine (text "# cangling-storage " ++ mnt)
  comment-IsLine =
      IsLine-append (text "# cangling-storage ") mnt (unfold text in (refl, refl))
        (word-IsLine mnt c.mnt_word)

  comment-is_entry : is_entry mnt (text "# cangling-storage " ++ mnt) ≡ false
  comment-is_entry =
      rw (← c.no_comment) (unfold is_entry split_whitespace text is_whitespace in refl)

  -- The lines that an entry is appended as.
  appended :
      (existing : Text)
      → any is_return existing ≡ false
      → lines (
          existing
          ++ (text "\n# cangling-storage "
              ++ (mnt ++ (b'\n' ∷ (entry fstype src mnt opts ++ b'\n' ∷ [])))))
        ≡ lines existing
          ++ (pad existing ++ (text "# cangling-storage " ++ mnt) ∷ entry fstype src mnt opts ∷ [])
  appended existing h =
      let mark = text "# cangling-storage " in
      let more = b'\n' ∷ (entry fstype src mnt opts ++ b'\n' ∷ []) in
      let two =
        ap lines (sym (append_assoc mark mnt more))
        ∙ lines_line (mark ++ mnt) (entry fstype src mnt opts ++ b'\n' ∷ []) comment-IsLine
        ∙ ap (◌∷◌ (mark ++ mnt)) (
            lines_line (entry fstype src mnt opts) [] entry-IsLine
            ∙ ap (◌∷◌ (entry fstype src mnt opts)) lines_nil) in
      rw (text_feed) (
        lines-append existing (mark ++ (mnt ++ more)) h
        ∙ ap (λ t. lines existing ++ (pad existing ++ t)) two)

  pad-is_entry : (s : Text) → any (is_entry mnt) (pad s) ≡ false
  pad-is_entry [] = unfold is_entry split_whitespace in refl
  pad-is_entry (x ∷ []) = elim (Bool-cases (is_feed x)) [
    | inl e ↦ rw e (unfold is_entry split_whitespace in refl)
    | inr e ↦ rw e
  ]
  pad-is_entry (x ∷ y ∷ s) = pad-is_entry (y ∷ s)

  not-stale :
      (ls : List Text)
      → any (is_entry mnt) ls ≡ false
      → any (is_stale mnt (entry fstype src mnt opts)) ls ≡ false
  not-stale [] h = refl
  not-stale (l ∷ ls) h = ground (arith, not-stale ls)

  -- What a second call finds.
  Settled : Text → Type 0
  Settled out =
      (any (is_entry mnt) (lines out) ≡ true)
      × (any (is_stale mnt (entry fstype src mnt opts)) (lines out) ≡ false)

  persist_fstab-Settled :
      (existing : Text)
      → any is_return existing ≡ false
      → Settled (persist_fstab existing fstype src mnt opts).0
  unfolding persist_fstab Settled
  persist_fstab-Settled existing h = elim (Bool-cases (any (is_entry mnt) (lines existing))) [
    | inl found ↦
        elim (Bool-cases (any (is_stale mnt (entry fstype src mnt opts)) (lines existing))) [
          | inl stale ↦
              let (line, same, fresh) = settled (lines existing) (lines-IsLine existing h) in
              rw (found, stale) (rw (lines-unlines _ line) (same ∙ found, fresh))
          | inr fresh ↦ rw (found, fresh) (found, fresh)
        ]
    | inr missing ↦
        let none_stale = not-stale (lines existing) missing in
        rw missing (
          rw (appended existing h) (
            rw
              (
                any-append (is_entry mnt) (lines existing) _,
                any-append (is_entry mnt) (pad existing) _,
                any-append (is_stale mnt (entry fstype src mnt opts)) (lines existing) _,
                any-append (is_stale mnt (entry fstype src mnt opts)) (pad existing) _,
                missing,
                none_stale,
                pad-is_entry existing,
                not-stale (pad existing) (pad-is_entry existing),
                comment-is_entry,
                is_entry-entry,
                trim-entry,
                text_eq_refl (entry fstype src mnt opts),
              )
              (refl, refl)))
  ]

  persist_fstab-again :
      (out : Text) → Settled out → persist_fstab out fstype src mnt opts ≡ (out, false)
  unfolding persist_fstab Settled
  persist_fstab-again out (found, fresh) = rw (found, fresh)

-- Storing a mount in a file without carriage returns leaves an entry for its mount point, and storing it
-- again changes nothing, whatever stood in the file; the fields make one line, and the mount point is
-- not the program's own mark.
pub persist_fstab_twice :
    (existing : Text) {fstype src mnt opts : Text}
    → CleanFields fstype src mnt opts
    → any is_return existing ≡ false
    → let out = (persist_fstab existing fstype src mnt opts).0 in
      (any (is_entry mnt) (lines out) ≡ true)
      × (persist_fstab out fstype src mnt opts ≡ (out, false))
unfolding Settled
persist_fstab_twice existing c h =
    let settled_out = persist_fstab-Settled c existing h in
    (settled_out.0, persist_fstab-again c _ settled_out)
