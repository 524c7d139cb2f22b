-- ===== src/Tests/Revisions.antt =====
-- A project whose compose file is edited on the disk and in the editor.
use mathlib.Core.Option.{none, some}
use cangling_update.Base.{ℕ, Bool, true, false, List, [], ◌∷◌, map, ◌≡◌, refl, sort_by}
use cangling_update.Text.{
  Text, text, trim_matches, trim_start_matches, trim_end_matches, is_whitespace, len, len_utf8,
}
use cangling_update.Errors.{ok}
use cangling_update.Projects.Tables.{ProjectDb, ProjectRow, Version, next_version_no}
use cangling_update.Projects.Revisions.{
  list_compose_revisions, list_env_revisions, insert_compose_revision, latest_compose_revision,
  next_compose_rev_no, history, meta,
}
use cangling_update.Projects.Save.{
  Env, Site, SaveRequest, record_compose_revision, snapshot_disk_if_needed, validate_compose_text,
  read_compose_disk, compose_file_view, ComposeFileView, compose_etag, revision,
}
use cangling_update.Projects.Write.{save_compose_content, save_new}
use cangling_update.Projects.Journal.{
  Draft, Journal, Call, write_compose, write_env, erase, run, run_one, play_one, forget,
}
use cangling_update.Projects.Refine.{forget-run}
use cangling_update.Projects.Positions.{numbered, empty-Numbered, revisions_by_position}
use cangling_update.Projects.Saved.{Saved, save_compose_content-Saved}
use cangling_update.Projects.Calls.{Event, created, published, restored, balanced, after, publish}
use cangling_update.Projects.Sound.{Sound}
use cangling_update.Projects.Reachable.{start, next, Reachable-Sound}
use cangling_update.Projects.Current.{StandsAt, publish_next}

abbrev unique : Text
unique = text "UNIQUE constraint failed"

abbrev np4 : ProjectRow
np4 = record {
  id = text "p";
  name = text "np4";
  description = [];
  directory = text "/srv/np4";
  created_at = 1;
  updated_at = 1;
}

abbrev tables : ProjectDb
tables = record { projects = np4 ∷ []; versions = []; compose_revisions = []; env_revisions = [] }

abbrev save_of : Text → ℕ → Text → Draft
save_of id time content = record {
  stamp = (id, time);
  project_id = text "p";
  filename = text "docker-compose.yml";
  content = content;
  note = [];
  kind = text "save";
}

abbrev one : Draft
one = save_of (text "r1") 5 (text "a: 1")

abbrev two : Draft
two = save_of (text "r2") 6 (text "a: 2")

-- The second call takes an identifier again.
abbrev calls : List Call
calls =
    write_compose one
    ∷ write_compose one
    ∷ write_env one
    ∷ write_compose two
    ∷ erase (text "q")
    ∷ []

abbrev journal : Journal
journal = record { projects = text "p" ∷ []; compose = one ∷ two ∷ []; env = one ∷ [] }

forget-run_example :
    ◌≡◌ {A = Journal × List Bool}
      (forget (run (run_one unique) tables calls).0, (run (run_one unique) tables calls).1)
      (journal, true ∷ false ∷ true ∷ true ∷ false ∷ [])
unfolding play_one text
forget-run_example = forget-run unique tables calls

revisions_by_position_example :
    (list_compose_revisions (run (run_one unique) tables calls).0 (text "p")
      ≡ map meta (numbered 2 two ∷ numbered 1 one ∷ []))
    × (list_env_revisions (run (run_one unique) tables calls).0 (text "p")
        ≡ map meta (numbered 1 one ∷ []))
unfolding play_one text
revisions_by_position_example =
    revisions_by_position unique tables calls (text "p") empty-Numbered empty-Numbered

abbrev env : Env
env = record {
  conflict_text = unique;
  yaml_error = λ t. none;
  config_error = λ t. none;
  compose_up = λ t. (true, text "Started");
}

abbrev site : Site
site = record { db = tables; disk = record { exists = true; content = text "a: 1" } }

abbrev request : SaveRequest
request = record {
  project_id = text "p";
  path = text "/srv/np4/docker-compose.yml";
  filename = text "docker-compose.yml";
  content = text "a: 2";
  note = [];
  kind = text "save";
  recreate = true;
  expected_etag = none;
}

-- The content that was on the disk before is recorded first.
abbrev saved : Site
saved = record {
  db = record tables {
    compose_revisions =
        revision (text "r1", 5) (text "p") 1 (text "docker-compose.yml") (text "a: 1")
          (text "打开编辑器时的线上文件") (text "baseline")
        ∷ revision (text "r2", 6) (text "p") 2 (text "docker-compose.yml") (text "a: 2") []
            (text "save")
        ∷ [];
  };
  disk = record { exists = true; content = text "a: 2" };
}

abbrev shown : ComposeFileView
shown =
    compose_file_view saved.db (text "p") request.path request.filename true (text "a: 2")
      (compose_etag (text "a: 2")) (some (text "Started")) false

save_compose_content-Saved_example : Saved site saved request shown
unfolding text save_compose_content save_new validate_compose_text read_compose_disk len len_utf8
    trim_matches trim_start_matches trim_end_matches is_whitespace snapshot_disk_if_needed
    latest_compose_revision record_compose_revision insert_compose_revision next_compose_rev_no
    history sort_by
save_compose_content-Saved_example =
    save_compose_content-Saved env site.disk site (text "r1", 5) (text "r2", 6) request refl

abbrev version : Text → ℕ → Version
version id n = record {
  id = id;
  project_id = text "p";
  version_no = n;
  label = text "v";
  note = [];
  backup_path = text "/backups";
  images = [];
  jars = [];
  is_current = true;
  kind = text "update";
  created_at = 7;
}

abbrev empty : ProjectDb
empty = record { projects = []; versions = []; compose_revisions = []; env_revisions = [] }

-- A baseline, an update, an update whose number is taken, and a roll-back to the baseline.
abbrev history_of : List Event
history_of =
    created np4 (text "v1") (text "/b/1") false
    ∷ published 8 (version (text "v2") 2)
    ∷ published 9 (version (text "v3") 2)
    ∷ restored 10 (text "p") (text "v1")
    ∷ balanced (text "lb") (text "/srv/lb") 11
    ∷ []

abbrev come_to : ProjectDb → List Event → ProjectDb
come_to db [] = db
come_to db (e ∷ es) = come_to (after unique db e) es

Reachable-Sound_example : Sound (come_to empty history_of)
Reachable-Sound_example = Reachable-Sound {conflict_text = unique} (
    next (balanced (text "lb") (text "/srv/lb") 11) (
      next (restored 10 (text "p") (text "v1")) (
        next (published 9 (version (text "v3") 2)) (
          next (published 8 (version (text "v2") 2))
            (next (created np4 (text "v1") (text "/b/1") false) start)))))

publish_next_example :
    (db' : ProjectDb) × (publish unique tables 8 (version (text "v1") 1) ≡ ok db')
    × StandsAt db' (text "p") (version (text "v1") 1)
    × (next_version_no db' (text "p") ≡ 2)
unfolding text next_version_no
publish_next_example = publish_next unique tables 8 (version (text "v1") 1) refl refl refl
