-- ===== src/Projects/Calls.antt =====
-- What the handlers of src/api.rs do to the tables of projects and versions, between two locks of the
-- database each: `create_project`, `apply_update` and its like, `rollback`, `update_project` and
-- `delete_project`. The snapshots that the rows speak of are files and are not modelled.
use mathlib.Core.Option.{none, some}
use cangling_update.Base.{Bool, true, false, [], ℕ, if◌then◌else◌, find}
use cangling_update.Text.{Text, text, text_eq}
use cangling_update.Errors.{Result, ok, err, ◌>>=◌}
use cangling_update.Projects.Tables.{
  ProjectDb, ProjectRow, Project, Version, list_projects, insert_project, insert_version,
  mark_current, update_project, delete_project,
}

abbrev pub baseline : ProjectRow → Text → Text → Bool → Version
baseline p version_id tree compose_only = record {
  id = version_id;
  project_id = p.id;
  version_no = 1;
  label = text "v1";
  note = if compose_only then text "Compose 文件基线" else text "基线快照";
  backup_path = tree;
  images = [];
  jars = [];
  is_current = true;
  kind = if compose_only then text "baseline-compose" else text "baseline";
  created_at = p.created_at;
}

-- The row of the project is taken back where the version is refused.
unfoldable pub create_rows : Text → ProjectDb → ProjectRow → Version → ProjectDb × Result (Unit {0})
unfolding insert_project insert_version delete_project
create_rows conflict_text db p v = elim (insert_project conflict_text db p) [
  | err e ↦ (db, err e)
  | ok db1 ↦ elim (insert_version conflict_text db1 v) [
    | err e ↦ ((delete_project db1 p.id).0, err e)
    | ok db2 ↦ (db2, ok tt)
  ]
]

-- A version that goes live: `apply_update`.
unfoldable pub publish : Text → ProjectDb → ℕ → Version → Result ProjectDb
unfolding insert_version mark_current
publish conflict_text db now v =
    insert_version conflict_text db (record v { is_current = true }) >>= λ db1.
    ok (mark_current db1 now v.project_id v.id)

-- The state before a roll-back or a replacement.
unfoldable pub back_up : Text → ProjectDb → Version → Result ProjectDb
unfolding insert_version
back_up conflict_text db v = insert_version conflict_text db (record v { is_current = false })

abbrev pub loadbalance_name : Text
loadbalance_name = text "负载均衡"

abbrev loadbalance_description : Text
loadbalance_description = text "集群负载均衡入口：7800 端口的 /update/ 转发到主节点 cangling-update"

abbrev pub loadbalance_row : Text → Text → ℕ → ProjectRow
loadbalance_row id directory now = record {
  id = id;
  name = loadbalance_name;
  description = loadbalance_description;
  directory = directory;
  created_at = now;
  updated_at = now;
}

abbrev pub is_loadbalance : Project → Bool
is_loadbalance p = text_eq p.row.name loadbalance_name

-- The project of the load balancer is a row without a version: `register_loadbalance_project` of
-- src/cluster/init.rs.
unfoldable pub register_loadbalance_project : Text → ProjectDb → Text → Text → ℕ → Result ProjectDb
unfolding list_projects update_project insert_project
register_loadbalance_project conflict_text db fresh_id directory now =
    elim (find is_loadbalance (list_projects db)) [
      | some existing ↦
          update_project conflict_text db existing.row.id loadbalance_name loadbalance_description
            directory now
          >>= λ done. ok done.0
      | none ↦ insert_project conflict_text db (loadbalance_row fresh_id directory now)
    ]

-- What changes the two tables, between two locks of the database each.
pub data Event : Type 0 where
  created : ProjectRow → Text → Text → Bool → Event
  published : ℕ → Version → Event
  backed_up : Version → Event
  restored : ℕ → Text → Text → Event
  renamed : Text → Text → Text → Text → ℕ → Event
  deleted : Text → Event
  balanced : Text → Text → ℕ → Event

abbrev pub or_before : ProjectDb → Result ProjectDb → ProjectDb
or_before db (err e) = db
or_before db (ok db') = db'

unfoldable pub after : Text → ProjectDb → Event → ProjectDb
unfolding create_rows publish back_up mark_current update_project delete_project
    register_loadbalance_project
after conflict_text db (created p version_id tree compose_only) =
    (create_rows conflict_text db p (baseline p version_id tree compose_only)).0
after conflict_text db (published now v) = or_before db (publish conflict_text db now v)
after conflict_text db (backed_up v) = or_before db (back_up conflict_text db v)
after conflict_text db (restored now id version_id) = mark_current db now id version_id
after conflict_text db (renamed id name description directory now) =
    or_before db
      (update_project conflict_text db id name description directory now >>= λ done. ok done.0)
after conflict_text db (deleted id) = (delete_project db id).0
after conflict_text db (balanced fresh_id directory now) =
    or_before db (register_loadbalance_project conflict_text db fresh_id directory now)
