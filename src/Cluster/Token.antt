-- ===== src/Cluster/Token.antt =====
-- The guard on the interfaces between machines.
use cangling_update.Base.{Option, none, some, ◌≡◌, refl, ap, Bool-cases, inl, inr}
use cangling_update.Text.{Text, text_eq, text_eq_iff}
use cangling_update.Errors.{Result, ok}
use cangling_update.Cluster.Requests.{require_cluster_token}

-- A handler behind the cluster's token answers well only to a request that carries it, on a node that has
-- one set, and then with its own answer.
pub require_cluster_token-ok {ℓ} :
    {A : Type ℓ} (expected provided : Option Text) (handler : Result A) {x : A}
    → require_cluster_token expected provided handler ≡ ok x
    → (token : Text) × (expected ≡ some token) × (provided ≡ some token) × (handler ≡ ok x)
unfolding require_cluster_token
require_cluster_token-ok none provided handler h = absurd (cc h)
require_cluster_token-ok (some token) none handler h = absurd (cc h)
require_cluster_token-ok (some token) (some given) handler h =
    elim (Bool-cases (text_eq given token)) [
      | inl e ↦ (token, refl, ap some ((text_eq_iff given token).0 e), rw e at h)
      | inr e ↦ absurd (cc (rw e at h))
    ]
