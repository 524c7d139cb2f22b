-- ===== src/Projects/Revisions.antt =====
-- The statements of src/db.rs on `compose_revisions` and `env_revisions`, which have the same columns.
use mathlib.Core.Option
use mathlib.Core.Option.{Option, none, some}
use cangling_update.Base.{
  ℕ, ◌+◌, Bool, not, ◌&&◌, ◌||◌, List, [], ◌∷◌, ◌++◌, none, some, leb, ◌==◌, if◌then◌else◌, any,
  keep, find, map, sort_by,
}
use cangling_update.Text.{Text, text_eq, len}
use cangling_update.Errors.{Result, ok, err, internal, ◌>>=◌}
use cangling_update.Projects.Tables.{ProjectDb, ComposeRevision, has_project, max}

abbrev pub revision_of : Text → ComposeRevision → Bool
revision_of id r = text_eq r.project_id id

abbrev pub revisions_of : Text → List ComposeRevision → List ComposeRevision
revisions_of id rows = keep (revision_of id) rows

abbrev pub max_rev : List ComposeRevision → ℕ
max_rev [] = 0
max_rev (r ∷ rs) = max r.rev_no (max_rev rs)

abbrev pub next_no : List ComposeRevision → Text → ℕ
next_no rows id = max_rev (revisions_of id rows) + 1

abbrev pub collides : ComposeRevision → ComposeRevision → Bool
collides r x = text_eq x.id r.id || text_eq x.project_id r.project_id && x.rev_no == r.rev_no

abbrev pub insert_row :
    Text → Bool → List ComposeRevision → ComposeRevision → Result (List ComposeRevision)
insert_row conflict_text known rows r =
    if any (collides r) rows || not known then err (internal conflict_text) else ok (rows ++ r ∷ [])

abbrev pub newer : ComposeRevision → ComposeRevision → Bool
newer a b = leb b.rev_no a.rev_no

-- ORDER BY rev_no DESC.
unfoldable pub history : List ComposeRevision → Text → List ComposeRevision
history rows id = sort_by newer (revisions_of id rows)

-- `map_compose_revision_meta`: a listing leaves the content out; its length is read from the content.
abbrev pub meta : ComposeRevision → ComposeRevision
meta r = record r { content = []; bytes = len r.content }

-- `map_compose_revision`.
abbrev pub full : ComposeRevision → ComposeRevision
full r = record r { bytes = len r.content }

abbrev pub first_of : List ComposeRevision → Option ComposeRevision
first_of [] = none
first_of (r ∷ rs) = some r

abbrev pub is_revision : Text → Text → ComposeRevision → Bool
is_revision id rev_id r = revision_of id r && text_eq r.id rev_id

unfoldable pub next_compose_rev_no : ProjectDb → Text → ℕ
next_compose_rev_no db id = next_no db.compose_revisions id

unfoldable pub insert_compose_revision : Text → ProjectDb → ComposeRevision → Result ProjectDb
insert_compose_revision conflict_text db r =
    insert_row conflict_text (has_project db r.project_id) db.compose_revisions r >>= λ rows.
    ok (record db { compose_revisions = rows })

unfoldable pub list_compose_revisions : ProjectDb → Text → List ComposeRevision
unfolding history
list_compose_revisions db id = map meta (history db.compose_revisions id)

unfoldable pub get_compose_revision : ProjectDb → Text → Text → Option ComposeRevision
get_compose_revision db id rev_id =
    Option.map full (find (is_revision id rev_id) db.compose_revisions)

unfoldable pub latest_compose_revision : ProjectDb → Text → Option ComposeRevision
unfolding history
latest_compose_revision db id = Option.map full (first_of (history db.compose_revisions id))

unfoldable pub next_env_rev_no : ProjectDb → Text → ℕ
next_env_rev_no db id = next_no db.env_revisions id

unfoldable pub insert_env_revision : Text → ProjectDb → ComposeRevision → Result ProjectDb
insert_env_revision conflict_text db r =
    insert_row conflict_text (has_project db r.project_id) db.env_revisions r >>= λ rows.
    ok (record db { env_revisions = rows })

unfoldable pub list_env_revisions : ProjectDb → Text → List ComposeRevision
unfolding history
list_env_revisions db id = map meta (history db.env_revisions id)

unfoldable pub get_env_revision : ProjectDb → Text → Text → Option ComposeRevision
get_env_revision db id rev_id = Option.map full (find (is_revision id rev_id) db.env_revisions)

unfoldable pub latest_env_revision : ProjectDb → Text → Option ComposeRevision
unfolding history
latest_env_revision db id = Option.map full (first_of (history db.env_revisions id))
