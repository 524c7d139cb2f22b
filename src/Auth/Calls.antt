-- ===== src/Auth/Calls.antt =====
-- Which paths of `is_public` in src/auth.rs are calls of other machines, as the routes of
-- src/cluster/server.rs, src/images.rs and src/repo.rs name them.
use Prim.Native.String.{String}
use cangling_update.Base.{
  Bool, true, false, ◌||◌, ◌==◌, List, [], ◌∷◌, ◌++◌, ◌≡◌, ◌⊎◌, inl, inr, refl, sym, ap, subst,
  arith, All, Bool-cases, Option-cases,
}
use cangling_update.Text.{
  Text, text, text_eq, text_eq_iff, one_of, starts_with, ends_with, strip_suffix,
}
use cangling_update.Auth.Gate.{is_machine_path}

-- A text that is one of some literals is like each of them.
pub one_of-All :
    (P : Text → Type 0) (t : Text) (names : List String)
    → one_of t names ≡ true
    → All (λ a. P (text a)) names
    → P t
one_of-All P t [] h a = absurd (cc h)
one_of-All P t (name ∷ names) h a = elim (Bool-cases (text_eq t (text name))) [
  | inl e ↦ subst P (sym ((text_eq_iff t (text name)).0 e)) a.0
  | inr e ↦ one_of-All P t names (ground arith) a.1
]

pub starts_with-rest : (p t : Text) → starts_with p t ≡ true → (rest : Text) × (t ≡ p ++ rest)
starts_with-rest [] t h = (t, refl)
starts_with-rest (c ∷ p) [] h = absurd (cc h)
starts_with-rest (c ∷ p) (d ∷ t) h = elim (Bool-cases (c == d)) [
  | inl e ↦
      let (rest, same) = starts_with-rest p t (rw e at h) in
      let head : d ≡ c = ground arith in (rest, rw (head, same) refl)
  | inr e ↦ absurd (cc (rw e at h))
]

pub or-cases : (a b : Bool) → (a || b) ≡ true → (a ≡ true) ⊎ (b ≡ true)
or-cases true b h = inl refl
or-cases false b h = inr h

ends_with-front : (p t : Text) → ends_with p t ≡ true → (front : Text) × (t ≡ front ++ p)
ends_with-front [] [] h = ([], refl)
ends_with-front (c ∷ p) [] h = absurd (cc h)
ends_with-front p (c ∷ t) h = elim (Bool-cases (text_eq p (c ∷ t))) [
  | inl e ↦ ([], sym ((text_eq_iff p (c ∷ t)).0 e))
  | inr e ↦ elim (Option-cases (strip_suffix p t)) [
    | inl missing ↦ absurd (cc (rw (e, missing) at h))
    | inr (front, found) ↦
        let (before, same) = ends_with-front p t (rw found refl) in
        (c ∷ before, ap (λ s. c ∷ s) same)
  ]
]

abbrev pub login_calls : List String
login_calls = "/api/auth/status" ∷ "/api/auth/login" ∷ "/api/auth/setup" ∷ "/api/auth/logout" ∷ []

abbrev pub machine_calls : List String
machine_calls =
    "/api/cluster/register" ∷ "/api/cluster/heartbeat" ∷ "/api/cluster/repo"
    ∷ "/api/cluster/init/run" ∷ "/api/cluster/auth/sync" ∷ "/api/cluster/storage/start-share"
    ∷ "/api/cluster/storage/mount" ∷ "/api/cluster/storage/unmount" ∷ "/api/cluster/zot/environment"
    ∷ "/api/cluster/self-update" ∷ "/api/cluster/images" ∷ "/api/cluster/images/import"
    ∷ "/api/cluster/images/delete" ∷ []

-- A call that another machine makes with the token of the cluster.
pub data MachineCall (path : Text) : Type 0 where
  by_name : one_of path machine_calls ≡ true → MachineCall path
  binary : (arch : Text) → path ≡ text "/api/cluster/self-update/" ++ arch → MachineCall path
  image_job : (id : Text) → path ≡ text "/api/cluster/images/jobs/" ++ id → MachineCall path
  archive : (name : Text) → path ≡ text "/api/cluster/images/archive/" ++ name → MachineCall path
  repo_download :
      (item front : Text)
      → path ≡ text "/api/cluster/repo/" ++ item
      → path ≡ front ++ text "/download"
      → MachineCall path

pub is_machine_path-MachineCall : (path : Text) → is_machine_path path ≡ true → MachineCall path
unfolding is_machine_path
is_machine_path-MachineCall path h = elim (or-cases _ _ h) [
  | inr download ↦
      let (item, below) = starts_with-rest (text "/api/cluster/repo/") path (ground arith) in
      let (front, ends) = ends_with-front (text "/download") path (ground arith) in
      repo_download item front below ends
  | inl h1 ↦ elim (or-cases _ _ h1) [
    | inr found ↦
        let (name, same) = starts_with-rest (text "/api/cluster/images/archive/") path found in
        archive name same
    | inl h2 ↦ elim (or-cases _ _ h2) [
      | inr found ↦
          let (id, same) = starts_with-rest (text "/api/cluster/images/jobs/") path found in
          image_job id same
      | inl h3 ↦ elim (or-cases _ _ h3) [
        | inr found ↦
            let (arch, same) = starts_with-rest (text "/api/cluster/self-update/") path found in
            binary arch same
        | inl named ↦ by_name named
      ]
    ]
  ]
]
