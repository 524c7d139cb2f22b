-- ===== src/Projects/Write.antt =====
-- `save_compose_content` and `save_env_content` of src/api.rs, for a directory whose compose file has one
-- name: that the name changes between the two readings is not modelled, nor that another call writes
-- revisions between the new one and the list of them in the answer, while `docker compose up` runs.
use mathlib.Core.Option.{Option, none, some}
use cangling_update.Base.{true, false, ◌&&◌, ◌++◌, if◌then◌else◌}
use cangling_update.Text.{Text, text, text_eq, len}
use cangling_update.Errors.{
  AppError, Result, ok, err, bad_request, conflict, refuse_if, into_response,
}
use cangling_update.Paths.{validate_env_text}
use cangling_update.Projects.Save.{
  Env, Disk, Stamp, ComposeFileView, SaveRequest, Site, note_of, failed_log, differs, or_keep,
  compose_etag, read_compose_disk, validate_compose_text, snapshot_disk_if_needed,
  record_compose_revision, snapshot_env_disk_if_needed, record_env_revision, compose_file_view,
  env_file_view,
}

abbrev pub as_bad {ℓ} : {A : Type ℓ} → Result A → Result A
as_bad (err e) = err (bad_request (into_response e).1)
as_bad (ok a) = ok a

abbrev pub config_check : Env → Text → Result (Unit {0})
config_check env content = elim (env.config_error content) [
  | none ↦ ok tt
  | some e ↦ err (bad_request (text "Compose 文件校验失败：" ++ e))
]

abbrev pub changed_text : AppError
changed_text = conflict (text "磁盘上的 Compose 文件已变化，请关闭后重新打开再保存")

abbrev pub env_changed_text : AppError
env_changed_text = conflict (text "磁盘上的 .env 文件已变化，请关闭后重新打开再保存")

abbrev log_of : Env → Text → SaveRequest → Option Text
log_of env prefix req =
    if req.recreate then some (failed_log prefix (env.compose_up req.content)) else none

-- The file is as it was asked for: only the missing snapshot is recorded.
unfoldable pub save_same : Env → Site → Stamp → SaveRequest → Site × Result ComposeFileView
unfolding read_compose_disk snapshot_disk_if_needed
save_same env s stamp req =
    let (disk, etag) = read_compose_disk s.disk in
    or_keep s
      (snapshot_disk_if_needed env.conflict_text s.db stamp req.project_id req.filename disk etag)
      (λ db. (
        record s { db = db },
        ok (
            compose_file_view db req.project_id req.path req.filename s.disk.exists disk etag none
              true),
      ))

unfoldable pub save_new : Env → Site → Stamp → Stamp → SaveRequest → Site × Result ComposeFileView
unfolding read_compose_disk snapshot_disk_if_needed record_compose_revision
save_new env s stamp stamp' req =
    let (disk, etag) = read_compose_disk s.disk in
    let written : Site = record s { disk = record { exists = true; content = req.content } } in
    or_keep written
      (snapshot_disk_if_needed env.conflict_text s.db stamp req.project_id req.filename disk etag)
      (λ db1.
        or_keep (record written { db = db1 })
          (record_compose_revision env.conflict_text db1 stamp' req.project_id req.filename
            req.content (note_of req) req.kind)
          (λ recorded. (
            record written { db = recorded.0 },
            ok (
                compose_file_view recorded.0 req.project_id req.path req.filename true req.content
                  (compose_etag req.content) (log_of env (text "Compose 文件已保存，但启动失败：") req) false),
          )))

-- `first` is the file as it was read before the lock, `s.disk` as it is read under it.
unfoldable pub save_compose_content :
    Env → Disk → Site → Stamp → Stamp → SaveRequest → Site × Result ComposeFileView
unfolding read_compose_disk validate_compose_text save_same save_new
save_compose_content env first s stamp stamp' req =
    or_keep s (validate_compose_text env req.content) (λ valid.
      or_keep s (refuse_if (differs req.expected_etag (read_compose_disk first).1) changed_text)
        (λ early.
          or_keep s
            (refuse_if (differs req.expected_etag (read_compose_disk s.disk).1) changed_text)
            (λ late.
              if text_eq req.content (read_compose_disk s.disk).0
              then save_same env s stamp req
              else or_keep s (config_check env req.content)
                  (λ passed. save_new env s stamp stamp' req))))

unfoldable pub save_env_same : Env → Site → Stamp → SaveRequest → Site × Result ComposeFileView
unfolding read_compose_disk snapshot_env_disk_if_needed
save_env_same env s stamp req =
    let (disk, etag) = read_compose_disk s.disk in
    or_keep s
      (snapshot_env_disk_if_needed env.conflict_text s.db stamp req.project_id req.filename disk
        etag)
      (λ db. (
        record s { db = db },
        ok (
            env_file_view db req.project_id req.path req.filename s.disk.exists disk etag none
              true),
      ))

unfoldable pub save_env_new :
    Env → Site → Stamp → Stamp → SaveRequest → Site × Result ComposeFileView
unfolding read_compose_disk snapshot_env_disk_if_needed record_env_revision
save_env_new env s stamp stamp' req =
    let (disk, etag) = read_compose_disk s.disk in
    let written : Site = record s { disk = record { exists = true; content = req.content } } in
    or_keep written
      (snapshot_env_disk_if_needed env.conflict_text s.db stamp req.project_id req.filename disk
        etag)
      (λ db1.
        or_keep (record written { db = db1 })
          (record_env_revision env.conflict_text db1 stamp' req.project_id req.filename req.content
            (note_of req) req.kind)
          (λ recorded. (
            record written { db = recorded.0 },
            ok (
                env_file_view recorded.0 req.project_id req.path req.filename true req.content
                  (compose_etag req.content) (log_of env (text ".env 已保存，但启动失败：") req) false),
          )))

unfoldable pub save_env_content :
    Env → Disk → Site → Stamp → Stamp → SaveRequest → Site × Result ComposeFileView
unfolding read_compose_disk validate_env_text save_env_same save_env_new
save_env_content env first s stamp stamp' req =
    or_keep s (as_bad (validate_env_text req.content (len req.content))) (λ valid.
      or_keep s (refuse_if (differs req.expected_etag (read_compose_disk first).1) env_changed_text)
        (λ early.
          or_keep s
            (refuse_if (differs req.expected_etag (read_compose_disk s.disk).1) env_changed_text)
            (λ late.
              if s.disk.exists && text_eq req.content (read_compose_disk s.disk).0
              then save_env_same env s stamp req
              else save_env_new env s stamp stamp' req)))
