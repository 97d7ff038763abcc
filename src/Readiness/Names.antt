-- ===== src/Readiness/Names.antt =====
-- `getClusters` (internal/cluster/cluster.go): the list that it makes of what the API lists.
use pgedge_helm.Base.{◌≡◌, map, Perm, List, arith}
use pgedge_helm.Base.Text.{Text, sort_texts}
use pgedge_helm.Base.Sorting.{IsSorted, sort_texts-IsSorted, sort_texts-Perm, sort_texts-eq_of_Perm}
use pgedge_helm.Io.{ok}
use pgedge_helm.Readiness.{ClusterItem, Client, Kubernetes, cnpg_gvr, label_selector, get_clusters}

abbrev pub names_of : List ClusterItem → List Text
names_of items = map (λ i. i.name) items

-- What `getClusters` returns is a function of the clusters that the API lists, not of their order:
-- where the list succeeds, the names are the sorted ones of the items, each as often as it was listed,
-- and any other order of the items has the same sorted names.
pub get_clusters-IsCanonical :
    {S : Type 0} (kubernetes : Kubernetes S) (client : Client) (namespace app_name : Text)
    (s after : S) (items others : List ClusterItem)
    → kubernetes.list client cnpg_gvr namespace (label_selector app_name) s ≡ (ok items, after)
    → Perm (names_of items) (names_of others)
    → (names : List Text) × (get_clusters kubernetes client namespace app_name s
        ≡ (ok names, after))
      × IsSorted names
      × Perm names (names_of items)
      × (names ≡ sort_texts (names_of others))
unfolding get_clusters
get_clusters-IsCanonical kubernetes client namespace app_name s after items others h p = (
  sort_texts (names_of items),
  ground arith,
  sort_texts-IsSorted (names_of items),
  sort_texts-Perm (names_of items),
  sort_texts-eq_of_Perm (names_of items) (names_of others) p,
)
