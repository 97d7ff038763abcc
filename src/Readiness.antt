-- ===== src/Readiness.antt =====
-- internal/cluster/cluster.go: the job waits until the clusters of CloudNativePG are healthy.
pub mod Healthy
pub mod Ends
pub mod Names
pub mod Success
mod Tests
use pgedge_helm.Base.{
  ℕ, zero, suc, Bool, true, false, ◌&&◌, List, [], ◌∷◌, Option, none, some, if◌then◌else◌, ◌==◌,
  ◌++◌, map,
}
use pgedge_helm.Base.Text.{Text, bytes, text_key, text_eq, sort_texts}
use pgedge_helm.Io.{Result, ok, err, Io, ◌>>=◌, pure, wrapped, Waited, came_up, gave_up}
use pgedge_helm.Resource.{Error, context}

-- A cluster of the Kubernetes API: its name, and `status.phase`, empty where it is missing.
pub record ClusterItem : Type 0 where
  pub name : Text
  pub phase : Text

pub record GroupVersionResource : Type 0 where
  pub group : Text
  pub version : Text
  pub resource : Text

-- A client of the Kubernetes API, as a handle.
abbrev pub Client : Type 0
Client = ℕ

-- client-go, over a state `S`.
pub record Kubernetes (S : Type 0) : Type 0 where
  -- `rest.InClusterConfig()`
  pub in_cluster_config : Io S ℕ
  -- `dynamic.NewForConfig`
  pub new_for_config : ℕ → Io S Client
  -- `client.Resource(...).Namespace(...).List(...)`, and the fields of the items that are read
  pub list :
      Client → GroupVersionResource → (namespace label_selector : Text) → Io S (List ClusterItem)
  -- `ctx.Err()`, where the context has ended
  pub ctx_err : S → Option Error
  -- `select` between `ctx.Done()` and `time.After`
  pub wait : (seconds : ℕ) → S → S

abbrev pub cnpg_gvr : GroupVersionResource
cnpg_gvr = record {
  group = bytes "postgresql.cnpg.io";
  version = bytes "v1";
  resource = bytes "clusters";
}

abbrev pub healthy_phase : Text
healthy_phase = bytes "Cluster in healthy state"

abbrev pub label_selector : Text → Text
label_selector app_name = bytes "pgedge.com/app-name=" ++ app_name

pub all_healthy : List ClusterItem → Bool
unfolding text_eq
all_healthy [] = true
all_healthy (item ∷ items) = (item.phase == healthy_phase) && all_healthy items

-- No cluster is not enough.
unfoldable pub is_ready : Result (List ClusterItem) → Bool
unfolding all_healthy
is_ready (err e) = false
is_ready (ok []) = false
is_ready (ok (item ∷ items)) = all_healthy (item ∷ items)

module _ {S : Type 0} (kubernetes : Kubernetes S) where
  unfoldable pub get_clusters : Client → (namespace app_name : Text) → Io S (List Text)
  get_clusters client namespace app_name = do
    items ←
        wrapped (bytes "list CNPG clusters")
          (kubernetes.list client cnpg_gvr namespace (label_selector app_name))
    pure (sort_texts (map (λ i. i.name) items))

  -- The loop runs on fuel, and is `none` without.
  unfoldable pub wait_for_all : ℕ → Client → (namespace app_name : Text) → S → Option (Waited × S)
  unfolding is_ready
  wait_for_all zero client namespace app_name s = none
  wait_for_all (suc fuel) client namespace app_name s =
      let (items, s1) = kubernetes.list client cnpg_gvr namespace (label_selector app_name) s in
      let s2 = kubernetes.wait 5 s1 in
      let rest = wait_for_all fuel client namespace app_name s2 in
      if is_ready items then some (came_up, s1) else elim (kubernetes.ctx_err s2) [
        | some e ↦ some (gave_up (context (bytes "timed out waiting for CNPG clusters") e), s2)
        | none ↦ rest
      ]

  -- `WaitForAll`, which makes the client.
  unfoldable pub wait_for_clusters : ℕ → (namespace app_name : Text) → S → Option (Waited × S)
  unfolding wait_for_all
  wait_for_clusters fuel namespace app_name s =
      let (cfg, s1) = wrapped (bytes "k8s in-cluster config") kubernetes.in_cluster_config s in
      elim cfg [
        | err e ↦ some (gave_up e, s1)
        | ok c ↦
            let (client, s2) =
              wrapped (bytes "k8s dynamic client") (kubernetes.new_for_config c) s1 in
            elim client [
              | err e ↦ some (gave_up e, s2)
              | ok k ↦ wait_for_all fuel k namespace app_name s2
            ]
      ]
