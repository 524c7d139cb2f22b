-- ===== src/Storage/Mount/Options.antt =====
-- The options of a CIFS mount: the user's come first and stand, and each default is there once asked.
use mathlib.Core.List.{append_assoc, append-nil}
use cangling_update.Base.{
  ℕ, Bool, true, false, ◌||◌, List, [], ◌∷◌, ◌++◌, Option, ◌==◌, if◌then◌else◌, is_empty, any, ◌≡◌,
  refl, arith, Bool-cases, inl, inr, ap, ◌∙◌, sym, any-append,
}
use cangling_update.Text.{
  Text, text, text_eq_refl, to_ascii_lowercase, trim, trim_matches, trim_end_matches, split,
  split_by, is_whitespace, split_by-append, split_by_whole, trim_matches_none,
  trim_end_matches-append, trim_start_matches_kept, split_once-append,
}
use cangling_update.Errors.{ok, >>=-eq-ok}
use cangling_update.Storage.Mount.{
  is_key, has_option, with_comma, append_mount_default, access_option, cifs_spec, slashes,
}

abbrev is_comma : ℕ → Bool
is_comma c = c == b','

abbrev is_equals : ℕ → Bool
is_equals c = c == b'='

-- A key as the program writes them: not empty, and with no comma, equals sign or blank.
abbrev CleanKey : Text → Type 0
CleanKey key =
    (is_empty key ≡ false)
    × (any is_comma key ≡ false)
    × (any is_equals key ≡ false)
    × (any is_whitespace key ≡ false)

trim-setting :
    (key value : Text)
    → is_empty key ≡ false
    → any is_whitespace key ≡ false
    → trim (key ++ b'=' ∷ value) ≡ key ++ b'=' ∷ trim_end_matches is_whitespace value
unfolding trim_matches
trim-setting [] value e w = absurd (cc)
trim-setting (c ∷ key) value e w =
    rw (trim_start_matches_kept is_whitespace c (key ++ b'=' ∷ value) (ground arith))
      (trim_end_matches-append is_whitespace b'=' (c ∷ key) value (unfold is_whitespace in refl))

is_key-setting : (key value : Text) → CleanKey key → is_key key (key ++ b'=' ∷ value) ≡ true
is_key-setting key value (e, c, q, w) =
    rw
      (
        trim-setting key value e w,
        split_once-append b'=' key _ q,
        trim_matches_none is_whitespace key w,
      )
      (text_eq_refl (to_ascii_lowercase key))

has_option-append :
    (options item key : Text)
    → has_option (options ++ b',' ∷ item) key ≡ (has_option options key || has_option item key)
unfolding has_option
has_option-append options item key =
    ap (any (is_key key)) (split_by-append is_comma b',' options item refl)
    ∙ any-append (is_key key) (split b',' options) (split b',' item)

has_option-item :
    (key value : Text)
    → CleanKey key
    → any is_comma value ≡ false
    → has_option (key ++ (b'=' ∷ value)) key ≡ true
unfolding has_option
has_option-item key value k v =
    rw
      (split_by_whole is_comma (key ++ (b'=' ∷ value))
        (any-append is_comma key (b'=' ∷ value) ∙ rw (k.1, v)))
      (rw (is_key-setting key value k))

-- A default never replaces what is there, is there afterwards, and takes nothing away.
append_mount_default-present :
    (options key value : Text)
    → CleanKey key
    → any is_comma value ≡ false
    → has_option (append_mount_default options key value) key ≡ true
unfolding append_mount_default
append_mount_default-present options key value k v = elim (Bool-cases (has_option options key)) [
  | inl e ↦ rw e e
  | inr e ↦ rw e (added options)
]
  where
    added : (o : Text) → has_option (with_comma o ++ (key ++ (b'=' ∷ value))) key ≡ true
    added [] = has_option-item key value k v
    added (c ∷ o) =
        ap (λ t. has_option t key) (append_assoc (c ∷ o) (b',' ∷ []) (key ++ (b'=' ∷ value)))
        ∙ has_option-append (c ∷ o) (key ++ (b'=' ∷ value)) key
        ∙ rw (has_option-item key value k v) (ground arith)

append_mount_default-prefix :
    (options key value : Text)
    → (more : Text) × (append_mount_default options key value ≡ options ++ more)
unfolding append_mount_default
append_mount_default-prefix options key value = elim (Bool-cases (has_option options key)) [
  | inl e ↦ ([], rw e (sym (append-nil options)))
  | inr e ↦ added options e
]
  where
    added :
        (o : Text)
        → has_option o key ≡ false
        → (more : Text) × ((if has_option o key then o else with_comma o ++ (key ++ (b'=' ∷ value)))
            ≡ o ++ more)
    added [] h = (key ++ (b'=' ∷ value), rw h)
    added (c ∷ o) h = (
      b',' ∷ (key ++ (b'=' ∷ value)),
      rw h (append_assoc (c ∷ o) (b',' ∷ []) (key ++ (b'=' ∷ value))),
    )

has_option_empty : (key : Text) → is_empty key ≡ false → has_option [] key ≡ false
unfolding has_option split_by trim_matches
has_option_empty [] h = absurd (cc)
has_option_empty (c ∷ key) h = refl

append_mount_default-keeps :
    (options key value other : Text)
    → is_empty other ≡ false
    → has_option options other ≡ true
    → has_option (append_mount_default options key value) other ≡ true
unfolding append_mount_default
append_mount_default-keeps options key value other ne h =
    elim (Bool-cases (has_option options key)) [ inl e ↦ rw e h | inr e ↦ rw e (kept options h) ]
  where
    kept :
        (o : Text)
        → has_option o other ≡ true
        → has_option (with_comma o ++ (key ++ (b'=' ∷ value))) other ≡ true
    kept [] h = absurd (ground (arith, has_option_empty other ne))
    kept (c ∷ o) h =
        ap (λ t. has_option t other) (append_assoc (c ∷ o) (b',' ∷ []) (key ++ (b'=' ∷ value)))
        ∙ has_option-append (c ∷ o) (key ++ (b'=' ∷ value)) other
        ∙ rw h

-- One default more: what was present stays, the new key is present, and the text is longer at its end.
abbrev pub Extends : Text → Text → Type 0
Extends before after = (more : Text) × (after ≡ before ++ more)

Extends-trans : (a b c : Text) → Extends a b → Extends b c → Extends a c
Extends-trans a b c (x, p) (y, q) = (x ++ y, q ∙ ap (λ t. t ++ y) p ∙ append_assoc a x y)

abbrev Has : Text → Text → Type 0
Has key options = has_option options key ≡ true

-- The defaults, added from first to last.
abbrev add_all : List (Text × Text) → Text → Text
add_all [] options = options
add_all ((key, value) ∷ more) options = add_all more (append_mount_default options key value)

abbrev CleanSettings : List (Text × Text) → Type 0
CleanSettings [] = Unit {0}
CleanSettings ((key, value) ∷ more) =
    CleanKey key × (any is_comma value ≡ false) × CleanSettings more

abbrev pub HasAll : List (Text × Text) → Text → Type 0
HasAll [] options = Unit {0}
HasAll ((key, value) ∷ more) options = Has key options × HasAll more options

add_all-keeps :
    (settings : List (Text × Text)) (options other : Text)
    → is_empty other ≡ false
    → Has other options
    → Has other (add_all settings options)
add_all-keeps [] options other ne h = h
add_all-keeps ((key, value) ∷ more) options other ne h =
    add_all-keeps more _ other ne (append_mount_default-keeps options key value other ne h)

add_all-HasAll :
    (settings : List (Text × Text)) (options : Text)
    → CleanSettings settings
    → HasAll settings (add_all settings options)
add_all-HasAll [] options c = tt
add_all-HasAll ((key, value) ∷ more) options (k, v, c) = (
  add_all-keeps more _ key k.0 (append_mount_default-present options key value k v),
  add_all-HasAll more _ c,
)

add_all-Extends :
    (settings : List (Text × Text)) (options : Text) → Extends options (add_all settings options)
add_all-Extends [] options = ([], sym (append-nil options))
add_all-Extends ((key, value) ∷ more) options =
    Extends-trans options _ _ (append_mount_default-prefix options key value)
      (add_all-Extends more _)

abbrev pub defaults : List (Text × Text)
defaults =
    (text "vers", text "3.0")
    ∷ (text "uid", text "0")
    ∷ (text "gid", text "0")
    ∷ (text "file_mode", text "0660")
    ∷ (text "dir_mode", text "0770")
    ∷ []

defaults-Clean : CleanSettings defaults
unfolding text is_whitespace
defaults-Clean = (
  (refl, refl, refl, refl),
  refl,
  (
    (refl, refl, refl, refl),
    refl,
    (
      (refl, refl, refl, refl),
      refl,
      ((refl, refl, refl, refl), refl, ((refl, refl, refl, refl), refl, tt)),
    ),
  ),
)

-- A CIFS mount that is accepted: the options are the user's, trimmed, then `guest` without an account or
-- the credentials file with one, then what is missing of the five defaults, so that all five keys are
-- given; the source is `//host/share` with no slash at the ends of either, and neither empty.
pub cifs_spec_options :
    (server share username : Text) (file : Option Text) (options kind source opts : Text)
    → cifs_spec server share username file options ≡ ok (kind, source, opts)
    → (access : Text) × (access_option username file ≡ ok access)
      × Extends (with_comma (trim options) ++ access) opts
      × HasAll defaults opts
      × (kind ≡ text "cifs")
      × (source
          ≡ text "//"
            ++ (trim_matches slashes (trim server) ++ (b'/' ∷ trim_matches slashes (trim share))))
      × (is_empty (trim_matches slashes (trim server)) ≡ false)
      × (is_empty (trim_matches slashes (trim share)) ≡ false)
unfolding cifs_spec
cifs_spec_options server share username file options kind source opts h =
    let host = trim_matches slashes (trim server) in
    let dir = trim_matches slashes (trim share) in
    let given = with_comma (trim options) in
    elim (Bool-cases (is_empty host || is_empty dir)) [
      | inl e ↦ absurd (cc (rw e at h))
      | inr e ↦
          let (access, granted, last) = >>=-eq-ok (access_option username file) _ (rw e at h) in
          let same : opts ≡ add_all defaults (given ++ access) = ground arith in
          (
            access,
            granted,
            rw same (add_all-Extends defaults (given ++ access)),
            rw same (add_all-HasAll defaults (given ++ access) defaults-Clean),
            ground arith,
            ground arith,
            ground arith,
            ground arith,
          )
    ]
