-- ===== src/Auth/Session.antt =====
-- Sessions of src/auth.rs: who a token stands for, logins and logouts, and the change of a password.
-- Argon2, the password policy's regular expression and the generator of tokens are the environment.
use cangling_update.Base.{
  ℕ, ◌+◌, ◌-◌, ◌*◌, ◌/◌, Bool, not, ◌||◌, Option, none, some, ltb, leb, if◌then◌else◌, ◌++◌,
  is_empty,
}
use cangling_update.Text.{Text, text, decimal, trim, text_is_eq}
use cangling_update.Errors.{
  bad_request, conflict, unauthorized, Result, ok, err, ◌>>=◌, ◌>>◌, refuse_if,
}
use cangling_update.Auth.Guard.{
  LoginGuard, lockout_remaining_secs, record_failure, clear, num_seconds,
}
use cangling_update.Auth.Tables.{
  Db, user_count, get_user_by_name, get_user_by_id, insert_user, create_session, session_user_id,
  touch_session, delete_session, update_password_hash, delete_sessions_for_user,
}
use cangling_update.Auth.Tokens.{Headers, read_token, normalize_username}

abbrev pub idle_timeout_secs : ℕ
idle_timeout_secs = 2 * 60 * 60

pub record SessionUser : Type 0 where
  pub id : Text
  pub username : Text

unfoldable pub session_expired : ℕ → ℕ → Bool
session_expired now last_seen = leb idle_timeout_secs (num_seconds (now - last_seen))

unfoldable pub current_user : Db → ℕ → Option Text → Db × Option SessionUser
current_user db now none = (db, none)
current_user db now (some token) =
    if is_empty token then (db, none) else elim (session_user_id db token) [
      | none ↦ (db, none)
      | some (user_id, last_seen) ↦
          if session_expired now last_seen
          then (delete_session db token, none)
          else let touched = touch_session db now token in
            elim (get_user_by_id touched user_id) [
              | none ↦ (delete_session touched token, none)
              | some user ↦ (touched, some (record { id = user.id; username = user.username }))
            ]
    ]

-- What the program takes from elsewhere.
pub record Env : Type 0 where
  pub verify_password : Text → Text → Bool
  pub hash_password : Text → Text
  pub validate_password : Text → Result (Unit {0})
  pub conflict_text : Text

-- The part of the server's state that logins read and write.
pub record Auth : Type 0 where
  pub db : Db
  pub guard : LoginGuard

pub record AuthUser : Type 0 where
  pub id : Text
  pub username : Text
  pub token : Text

abbrev pub with_db : Auth → Result Db → AuthUser → Auth × Result AuthUser
with_db a (err e) user = (a, err e)
with_db a (ok db) user = (record a { db = db }, ok user)

-- The minutes are rounded up.
unfoldable pub lockout_text : ℕ → Text
lockout_text secs = text "登录失败次数过多，请 " ++ (decimal ((secs + 59) / 60) ++ text " 分钟后再试")

module _ (env : Env) where
  unfoldable pub issue_session : Auth → ℕ → Text → Text → Text → Auth × Result AuthUser
  issue_session a now token user_id username =
      with_db a (create_session env.conflict_text a.db now token user_id)
        (record { id = user_id; username = username; token = token })

  abbrev wrong_password : Auth → Text → ℕ → Auth × Result AuthUser
  wrong_password a username now = (
    record a { guard = record_failure a.guard username now },
    err (unauthorized (text "用户名或密码错误")),
  )

  -- The password is looked at here only.
  unfoldable pub check_password : Auth → ℕ → Text → Text → Text → Auth × Result AuthUser
  unfolding issue_session
  check_password a now username password token = elim (get_user_by_name a.db username) [
    | none ↦ wrong_password a username now
    | some user ↦
        if env.verify_password password user.password_hash
        then issue_session (record a { guard = clear a.guard username }) now token user.id
            user.username
        else wrong_password a username now
  ]

  unfoldable pub login : Auth → ℕ → Text → Text → Text → Auth × Result AuthUser
  login a now raw password token =
      let username = trim raw in
      if is_empty username || is_empty password
      then (a, err (bad_request (text "请输入用户名和密码")))
      else elim (lockout_remaining_secs a.guard username now) [
        | some secs ↦ (a, err (unauthorized (lockout_text secs)))
        | none ↦ check_password a now username password token
      ]

  -- The first half of `setup`, under the first lock of the database: the name, or the reason why not.
  unfoldable pub setup_check : Db → Text → Text → Result Text
  setup_check db raw password = do
    name ← normalize_username raw
    env.validate_password password
    refuse_if (ltb 0 (user_count db)) (conflict (text "管理员已初始化，请直接登录"))
    ok name

  -- The second half, under another lock: the count of users is not looked at again.
  unfoldable pub setup_store : Db → Text → Text → Text → Result Db
  setup_store db name password user_id =
      insert_user env.conflict_text db
        (record { id = user_id; username = name; password_hash = env.hash_password password })

  -- The administrator is stored, or the reason why not, where no other request comes between the halves.
  unfoldable pub first_user : Db → Text → Text → Text → Result (Text × Db)
  unfolding setup_check setup_store
  first_user db raw password user_id = do
    name ← setup_check db raw password
    stored ← setup_store db name password user_id
    ok (name, stored)

  unfoldable pub setup : Auth → ℕ → Text → Text → Text → Text → Auth × Result AuthUser
  unfolding first_user issue_session
  setup a now raw password user_id token = elim (first_user a.db raw password user_id) [
    | err e ↦ (a, err e)
    | ok (name, db) ↦ issue_session (record a { db = db }) now token user_id name
  ]

  unfoldable pub replace_password : Db → SessionUser → Text → Text → Result Db
  replace_password seen user old_password new_password = do
    env.validate_password new_password
    row ← elim (get_user_by_id seen user.id) [
      | none ↦ err (unauthorized (text "用户不存在"))
      | some row ↦ ok row
    ]
    refuse_if (not (env.verify_password old_password row.password_hash))
        (unauthorized (text "当前密码不正确"))
    let changed = (update_password_hash seen user.id (env.hash_password new_password)).0
    ok (delete_sessions_for_user changed user.id)

  -- `change_password` on this node; the workers are told afterwards.
  unfoldable pub change_for : Db × Option SessionUser → Text → Text → Db × Result SessionUser
  unfolding replace_password
  change_for (seen, none) old_password new_password = (seen, err (unauthorized (text "请先登录或登录已过期")))
  change_for (seen, some user) old_password new_password =
      elim (replace_password seen user old_password new_password) [
        | err e ↦ (seen, err e)
        | ok changed ↦ (changed, ok user)
      ]

  unfoldable pub change_password : Db → ℕ → Headers → Text → Text → Db × Result SessionUser
  unfolding change_for
  change_password db now headers = change_for (current_user db now (read_token headers))

unfoldable pub logout : Db → Headers → Db
logout db headers = elim (read_token headers) [ none ↦ db | some token ↦ delete_session db token ]
