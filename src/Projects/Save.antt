-- ===== src/Projects/Save.antt =====
-- `record_…`, `snapshot_…` and `save_…` of src/api.rs: how a compose or .env file is stored together
-- with its revisions. The file is read once before the lock of the project and once after; a save is a
-- function of the two readings. The YAML parser, `docker compose config` and `docker compose up` are
-- parameters, the identifiers and times of new rows arguments; writing to the disk does not fail.
use mathlib.Core.Option
use mathlib.Core.Option.{Option, none, some}
use cangling_update.Base.{
  ℕ, ◌/◌, ◌%◌, ◌+◌, ◌*◌, Bool, true, false, not, List, [], ◌∷◌, ◌++◌, ltb, if◌then◌else◌, is_empty,
}
use cangling_update.Text.{Text, text, text_eq, len, trim, has, decimal}
use cangling_update.Errors.{Result, ok, err, bad_request, refuse_if, ◌>>=◌, ◌>>◌}
use cangling_update.Storage.Mount.{fnv1a, hex}
use cangling_update.Projects.Tables.{ProjectDb, ComposeRevision}
use cangling_update.Projects.Revisions.{
  next_compose_rev_no, insert_compose_revision, list_compose_revisions, latest_compose_revision,
  next_env_rev_no, insert_env_revision, list_env_revisions, latest_env_revision, first_of,
}

-- The bytes of a code point in UTF-8.
abbrev encode_char : ℕ → List ℕ
encode_char c =
    if ltb c 0x80
    then c ∷ []
    else if ltb c 0x800
    then (0xc0 + c / 0x40) ∷ (0x80 + c % 0x40) ∷ []
    else if ltb c 0x10000
    then (0xe0 + c / 0x1000) ∷ (0x80 + c / 0x40 % 0x40) ∷ (0x80 + c % 0x40) ∷ []
    else (0xf0 + c / 0x40000)
      ∷ (0x80 + c / 0x1000 % 0x40)
      ∷ (0x80 + c / 0x40 % 0x40)
      ∷ (0x80 + c % 0x40)
      ∷ []

unfoldable pub as_bytes : Text → List ℕ
as_bytes [] = []
as_bytes (c ∷ cs) = encode_char c ++ as_bytes cs

unfoldable pub compose_etag : Text → Text
unfolding as_bytes fnv1a hex
compose_etag content =
    hex 16 (fnv1a 0xcbf29ce484222325 (as_bytes content)) (b'-' ∷ decimal (len content))

-- What the file holds: `read_compose_disk` takes a missing one as empty.
pub record Disk : Type 0 where
  pub exists : Bool
  pub content : Text

unfoldable pub read_compose_disk : Disk → Text × Text
read_compose_disk d = let c = if d.exists then d.content else [] in (c, compose_etag c)

-- A new row: its identifier and its time.
abbrev pub Stamp : Type 0
Stamp = Text × ℕ

pub record Env : Type 0 where
  pub conflict_text : Text
  -- None where the text is a YAML mapping that is not empty, otherwise what is said of it.
  pub yaml_error : Text → Option Text
  -- None where `docker compose config` passes the file or there is no `docker compose`.
  pub config_error : Text → Option Text
  -- What `docker compose up` prints, and whether it worked.
  pub compose_up : Text → Bool × Text

abbrev compose_max_bytes : ℕ
compose_max_bytes = 1024 * 1024

unfoldable pub validate_compose_text : Env → Text → Result (Unit {0})
validate_compose_text env content =
    refuse_if (ltb compose_max_bytes (len content)) (bad_request (text "Compose 文件不能超过 1 MB"))
    >> (refuse_if (is_empty (trim content)) (bad_request (text "Compose 文件不能为空"))
        >> (refuse_if (has 0 content) (bad_request (text "Compose 文件不能包含空字节"))
            >> elim (env.yaml_error content) [ none ↦ ok tt | some e ↦ err (bad_request e) ]))

abbrev pub revision : Stamp → Text → ℕ → Text → Text → Text → Text → ComposeRevision
revision stamp project_id rev_no filename content note kind = record {
  id = stamp.0;
  project_id = project_id;
  rev_no = rev_no;
  filename = filename;
  content = content;
  note = note;
  kind = kind;
  etag = compose_etag content;
  created_at = stamp.1;
  bytes = len content;
}

unfoldable pub record_compose_revision :
    Text
    → ProjectDb
    → Stamp
    → Text
    → Text
    → Text
    → Text
    → Text
    → Result (ProjectDb × ComposeRevision)
record_compose_revision conflict_text db stamp project_id filename content note kind =
    let rev =
      revision stamp project_id (next_compose_rev_no db project_id) filename content note kind in
    insert_compose_revision conflict_text db rev >>= λ db'. ok (db', rev)

unfoldable pub snapshot_disk_if_needed :
    Text → ProjectDb → Stamp → Text → Text → Text → Text → Result ProjectDb
unfolding record_compose_revision
snapshot_disk_if_needed conflict_text db stamp project_id filename disk disk_etag =
    if is_empty disk then ok db else elim (latest_compose_revision db project_id) [
      | some r ↦
          if text_eq r.etag disk_etag
          then ok db
          else record_compose_revision conflict_text db stamp project_id filename disk
              (text "磁盘上的未记录内容") (text "external")
            >>= λ p. ok p.0
      | none ↦
          record_compose_revision conflict_text db stamp project_id filename disk
            (text "打开编辑器时的线上文件") (text "baseline")
          >>= λ p. ok p.0
    ]

unfoldable pub record_env_revision :
    Text
    → ProjectDb
    → Stamp
    → Text
    → Text
    → Text
    → Text
    → Text
    → Result (ProjectDb × ComposeRevision)
record_env_revision conflict_text db stamp project_id filename content note kind =
    let rev =
      revision stamp project_id (next_env_rev_no db project_id) filename content note kind in
    insert_env_revision conflict_text db rev >>= λ db'. ok (db', rev)

-- An empty .env file is recorded too.
unfoldable pub snapshot_env_disk_if_needed :
    Text → ProjectDb → Stamp → Text → Text → Text → Text → Result ProjectDb
unfolding record_env_revision
snapshot_env_disk_if_needed conflict_text db stamp project_id filename disk disk_etag =
    elim (latest_env_revision db project_id) [
      | some r ↦
          if text_eq r.etag disk_etag
          then ok db
          else record_env_revision conflict_text db stamp project_id filename disk
              (text "磁盘上的未记录内容") (text "external")
            >>= λ p. ok p.0
      | none ↦
          record_env_revision conflict_text db stamp project_id filename disk (text "打开编辑器时的线上文件")
            (text "baseline")
          >>= λ p. ok p.0
    ]

pub record ComposeFileView : Type 0 where
  pub filename : Text
  pub path : Text
  pub exists : Bool
  pub content : Text
  pub etag : Text
  pub bytes : ℕ
  pub matches_latest : Bool
  pub current_rev_id : Option Text
  pub current_rev_no : Option ℕ
  pub revisions : List ComposeRevision
  pub recreate_log : Option Text
  pub unchanged : Bool

abbrev pub has_etag : Text → Option ComposeRevision → Bool
has_etag etag none = false
has_etag etag (some r) = text_eq r.etag etag

abbrev view_of :
    List ComposeRevision → Text → Text → Bool → Text → Text → Option Text → Bool → ComposeFileView
view_of revisions path filename exists content etag recreate_log unchanged = record {
  filename = filename;
  path = path;
  exists = exists;
  content = content;
  etag = etag;
  bytes = len content;
  matches_latest = has_etag etag (first_of revisions);
  current_rev_id = Option.map (λ r. r.id) (first_of revisions);
  current_rev_no = Option.map (λ r. r.rev_no) (first_of revisions);
  revisions = revisions;
  recreate_log = recreate_log;
  unchanged = unchanged;
}

unfoldable pub compose_file_view :
    ProjectDb → Text → Text → Text → Bool → Text → Text → Option Text → Bool → ComposeFileView
compose_file_view db project_id = view_of (list_compose_revisions db project_id)

unfoldable pub env_file_view :
    ProjectDb → Text → Text → Text → Bool → Text → Text → Option Text → Bool → ComposeFileView
env_file_view db project_id = view_of (list_env_revisions db project_id)

abbrev pub differs : Option Text → Text → Bool
differs none etag = false
differs (some expected) etag = not (text_eq expected etag)

-- What a save was asked for: the project, the path and name of its file, and the body.
pub record SaveRequest : Type 0 where
  pub project_id : Text
  pub path : Text
  pub filename : Text
  pub content : Text
  pub note : Text
  pub kind : Text
  pub recreate : Bool
  pub expected_etag : Option Text

abbrev pub note_of : SaveRequest → Text
note_of req =
    if is_empty (trim req.note)
    then if text_eq req.kind (text "restore") then text "恢复历史版本" else []
    else req.note

abbrev pub failed_log : Text → Bool × Text → Text
failed_log prefix (true, log) = log
failed_log prefix (false, e) = prefix ++ e

-- The state that a save changes.
pub record Site : Type 0 where
  pub db : ProjectDb
  pub disk : Disk

-- `?` on a step of the database, in a state that is kept where it fails.
abbrev pub or_keep {ℓ} :
    {A : Type ℓ}
    → Site
    → Result A
    → (A → Site × Result ComposeFileView)
    → Site × Result ComposeFileView
or_keep s (err e) next = (s, err e)
or_keep s (ok a) next = next a
