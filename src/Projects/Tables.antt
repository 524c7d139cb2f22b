-- ===== src/Projects/Tables.antt =====
-- The tables `projects`, `versions`, `compose_revisions` and `env_revisions` of src/db.rs, and the
-- statements on the first two. A statement that breaks PRIMARY KEY, UNIQUE or FOREIGN KEY ends in an
-- error whose text is `conflict_text` of the environment; other failures of the database are not
-- modelled. The lists of images and jars stand for their JSON, which is read back as it was written.
use mathlib.Core.Option
use mathlib.Core.Option.{Option, none, some}
use cangling_update.Base.{
  ℕ, ◌+◌, Bool, true, false, not, ◌&&◌, ◌||◌, List, [], ◌∷◌, ◌++◌, leb, ◌==◌, if◌then◌else◌, length,
  any, keep, find, map, sort_by,
}
use cangling_update.Text.{Text, text_eq}
use cangling_update.Errors.{Result, ok, err, internal}

pub record LoadedImage : Type 0 where
  pub file : Text
  pub loaded : List Text
  pub latest_tags : List Text

pub record DeployedJar : Type 0 where
  pub file : Text
  pub dest : Text
  pub services : List Text
  pub backup_file : Text

-- A row of `versions`; the sizes of `Version` are measured on the disk and not stored.
pub record Version : Type 0 where
  pub id : Text
  pub project_id : Text
  pub version_no : ℕ
  pub label : Text
  pub note : Text
  pub backup_path : Text
  pub images : List LoadedImage
  pub jars : List DeployedJar
  pub is_current : Bool
  pub kind : Text
  pub created_at : ℕ

pub record ProjectRow : Type 0 where
  pub id : Text
  pub name : Text
  pub description : Text
  pub directory : Text
  pub created_at : ℕ
  pub updated_at : ℕ

-- A row with what the sub-queries of PROJECT_SELECT add.
pub record Project : Type 0 where
  pub row : ProjectRow
  pub current_version_no : Option ℕ
  pub current_version_id : Option Text
  pub version_count : ℕ

pub record ComposeRevision : Type 0 where
  pub id : Text
  pub project_id : Text
  pub rev_no : ℕ
  pub filename : Text
  pub content : Text
  pub note : Text
  pub kind : Text
  pub etag : Text
  pub created_at : ℕ
  pub bytes : ℕ

pub record ProjectDb : Type 0 where
  pub projects : List ProjectRow
  pub versions : List Version
  pub compose_revisions : List ComposeRevision
  pub env_revisions : List ComposeRevision

abbrev pub has_project_id : Text → ProjectRow → Bool
has_project_id id p = text_eq p.id id

abbrev pub has_project : ProjectDb → Text → Bool
has_project db id = any (has_project_id id) db.projects

abbrev pub of_project : Text → Version → Bool
of_project id v = text_eq v.project_id id

abbrev pub versions_of : Text → List Version → List Version
versions_of id rows = keep (of_project id) rows

abbrev pub current_of : Text → List Version → Option Version
current_of id rows = find (λ v. of_project id v && v.is_current) rows

abbrev pub with_versions : ProjectRow → List Version → Project
with_versions p rows = record {
  row = p;
  current_version_no = Option.map (λ v. v.version_no) (current_of p.id rows);
  current_version_id = Option.map (λ v. v.id) (current_of p.id rows);
  version_count = length (versions_of p.id rows);
}

unfoldable pub list_projects : ProjectDb → List Project
list_projects db =
    map (λ p. with_versions p db.versions)
      (sort_by (λ a b. leb b.updated_at a.updated_at) db.projects)

unfoldable pub get_project : ProjectDb → Text → Option Project
get_project db id =
    Option.map (λ p. with_versions p db.versions) (find (has_project_id id) db.projects)

unfoldable pub insert_project : Text → ProjectDb → ProjectRow → Result ProjectDb
insert_project conflict_text db p =
    if any (λ q. text_eq q.id p.id || text_eq q.name p.name) db.projects
    then err (internal conflict_text)
    else ok (record db { projects = db.projects ++ p ∷ [] })

abbrev pub edited : Text → Text → Text → Text → ℕ → ProjectRow → ProjectRow
edited id name description directory updated_at p =
    if has_project_id id p
    then record p {
      name = name;
      description = description;
      directory = directory;
      updated_at = updated_at;
    }
    else p

-- The name of another project breaks UNIQUE; without a row of the identifier nothing is written.
unfoldable pub update_project :
    Text → ProjectDb → Text → Text → Text → Text → ℕ → Result (ProjectDb × Bool)
update_project conflict_text db id name description directory updated_at =
    if has_project db id && any (λ q. text_eq q.name name && not (has_project_id id q)) db.projects
    then err (internal conflict_text)
    else ok (
      record db { projects = map (edited id name description directory updated_at) db.projects },
      has_project db id,
    )

abbrev pub not_revision_of : Text → ComposeRevision → Bool
not_revision_of id r = not (text_eq r.project_id id)

-- ON DELETE CASCADE takes the versions and revisions along.
unfoldable pub delete_project : ProjectDb → Text → ProjectDb × Bool
delete_project db id = (
  record {
    projects = keep (λ p. not (has_project_id id p)) db.projects;
    versions = keep (λ v. not (of_project id v)) db.versions;
    compose_revisions = keep (not_revision_of id) db.compose_revisions;
    env_revisions = keep (not_revision_of id) db.env_revisions;
  },
  has_project db id,
)

abbrev pub max : ℕ → ℕ → ℕ
max a b = if leb a b then b else a

-- COALESCE(MAX(…), 0).
abbrev pub max_version : List Version → ℕ
max_version [] = 0
max_version (v ∷ vs) = max v.version_no (max_version vs)

unfoldable pub next_version_no : ProjectDb → Text → ℕ
next_version_no db id = max_version (versions_of id db.versions) + 1

abbrev pub clashes : Version → Version → Bool
clashes v w = text_eq w.id v.id || text_eq w.project_id v.project_id && w.version_no == v.version_no

unfoldable pub insert_version : Text → ProjectDb → Version → Result ProjectDb
insert_version conflict_text db v =
    if any (clashes v) db.versions || not (has_project db v.project_id)
    then err (internal conflict_text)
    else ok (record db { versions = db.versions ++ v ∷ [] })

abbrev pub unmark : Text → Version → Version
unmark id v = if of_project id v then record v { is_current = false } else v

abbrev pub mark : Text → Text → Version → Version
mark id version_id v =
    if text_eq v.id version_id && of_project id v then record v { is_current = true } else v

abbrev pub touch_project : Text → ℕ → ProjectRow → ProjectRow
touch_project id now p = if has_project_id id p then record p { updated_at = now } else p

-- The three statements.
unfoldable pub mark_current : ProjectDb → ℕ → Text → Text → ProjectDb
mark_current db now id version_id =
    let cleared = map (unmark id) db.versions in
    let marked = map (mark id version_id) cleared in
    record db { versions = marked; projects = map (touch_project id now) db.projects }

abbrev pub later : Version → Version → Bool
later a b = leb b.version_no a.version_no

unfoldable pub list_versions : ProjectDb → Text → List Version
list_versions db id = sort_by later (versions_of id db.versions)

unfoldable pub get_version : ProjectDb → Text → Text → Option Version
get_version db id version_id = find (λ v. of_project id v && text_eq v.id version_id) db.versions
