-- ===== src/Job/Tests/SlowSite.antt =====
-- A site that comes up ten seconds after the start, twenty before the deadline.
use pgedge_helm.Base.{
  ℕ, zero, suc, ◌+◌, ◌-◌, ◌≤◌, ◌<◌, ◌≡◌, refl, true, false, [], ◌∷◌, Option, some, none, arith,
}
use pgedge_helm.Base.Text.{Text, bytes, text_eq}
use pgedge_helm.Base.Decimal.{atoi, decimal}
use pgedge_helm.Config.{Config, load, load_nodes, parse_bool}
use pgedge_helm.Io.{Result, ok, err, StaysOpen}
use pgedge_helm.Resource.{message}
use pgedge_helm.Connections.{connect, build_conn_config, connect_pool, build_pool_config}
use pgedge_helm.Readiness.{healthy_phase, cnpg_gvr, label_selector, is_ready}
use pgedge_helm.Spock.Desired.{Conns}
use pgedge_helm.Job.{Outside, as_failure, set_up, fresh, run}
use pgedge_helm.Job.Timeout.{timeout}
use pgedge_helm.Job.Keeps.{KeepsCalls}
use pgedge_helm.Job.Connected.{HasPools}
use pgedge_helm.Job.Success.{ComesUp, IsAccepted, IsPooled, run_succeeds}
use pgedge_helm.Job.Tests.OneNode.{Site, site, restored_node, deadline_exceeded, pass}

-- By the seconds to the deadline.
abbrev phase_at : Option ℕ → Text
phase_at none = healthy_phase
phase_at (some left) = elim (left - 20) [
  | zero ↦ healthy_phase
  | suc _ ↦ bytes "Setting up primary"
]

abbrev accepts_at : Option ℕ → Result ℕ
accepts_at none = ok 1
accepts_at (some left) = elim (left - 20) [ zero ↦ ok 1 | suc _ ↦ err (message (bytes "refused")) ]

abbrev slow_site : Outside Site
slow_site = record site {
  kubernetes = record site.kubernetes {
    list = λ client gvr namespace selector d.
        (ok (record { name = bytes "n1"; phase = phase_at d.0 } ∷ []), d);
  };
  pgx = record site.pgx { connect_config = λ cfg d. (accepts_at d.0, d) };
}

abbrev cfg : Config
cfg = record {
  app_name = bytes "app";
  db_name = bytes "app";
  namespace = bytes "app";
  admin_user = bytes "app";
  pgedge_user = bytes "pgedge";
  reset_spock = false;
  nodes = restored_node ∷ [];
}

abbrev Open : ℕ → Site → Type 0
Open n d = (left : ℕ) × (d.0 ≡ some left) × (n ≤ left)

abbrev Up : ℕ → Site → Type 0
Up m d = (left : ℕ) × (d.0 ≡ some left) × (left ≤ m + 20)

pass-Open : (seconds n : ℕ) (d : Site) → Open n d → Open (n - seconds) (pass seconds d)
pass-Open seconds n (none, log) (left, e, h) = absurd (ground arith)
pass-Open seconds n (some k, log) (left, e, h) = (k - seconds, refl, ground arith)

pass-Up : (seconds m : ℕ) (d : Site) → Up m d → Up (m - seconds) (pass seconds d)
pass-Up seconds m (none, log) (left, e, h) = absurd (ground arith)
pass-Up seconds m (some k, log) (left, e, h) = (k - seconds, refl, ground arith)

deadline_ahead : (n : ℕ) (d : Site) → 0 < n → Open n d → deadline_exceeded d ≡ none
deadline_ahead n (none, log) h (left, e, k) = refl
deadline_ahead n (some zero, log) h (left, e, k) = absurd (ground arith)
deadline_ahead n (some (suc l), log) h (left, e, k) = refl

pass-StaysOpen : StaysOpen deadline_exceeded pass Open
pass-StaysOpen = record { wait_shortens = pass-Open; is_open = deadline_ahead }

slow-KeepsCalls : (P : Site → Type 0) → KeepsCalls slow_site P
slow-KeepsCalls P = record {
  keeps_config = λ d h. h;
  keeps_client = λ c d h. h;
  keeps_list = λ client gvr namespace selector d h. h;
  keeps_key_pair = λ cert key d h. h;
  keeps_parse = λ s d h. h;
  keeps_parse_pool = λ s d h. h;
  keeps_connect = λ c d h. h;
  keeps_close = λ conn d h. h;
  keeps_pool = λ c d h. h;
  keeps_close_pool = λ pool d h. h;
}

settled_at :
    (client : ℕ) (d : Site)
    → Up 0 d
    → is_ready
        (slow_site.kubernetes.list client cnpg_gvr cfg.namespace (label_selector cfg.app_name) d).0
      ≡ true
unfolding is_ready text_eq
settled_at client (none, log) (left, e, h) = refl
settled_at client (some k, log) (left, e, h) = let p : k - 20 ≡ 0 = ground arith in ground arith

node-IsAccepted : IsAccepted slow_site cfg Up restored_node
unfolding connect build_conn_config
node-IsAccepted (none, log) (left, e, h) = (1, refl)
node-IsAccepted (some k, log) (left, e, h) = let p : k - 20 ≡ 0 = ground arith in (1, ground arith)

node-IsPooled : IsPooled slow_site cfg restored_node
unfolding connect_pool build_pool_config build_conn_config
node-IsPooled d = (2, refl)

slow-ComesUp : ComesUp slow_site cfg Open Up
slow-ComesUp = record {
  list_open = pass-StaysOpen;
  connect_open = pass-StaysOpen;
  keeps_open = λ n. slow-KeepsCalls (Open n);
  keeps_up = λ m. slow-KeepsCalls (Up m);
  wait_up = pass-Up;
  pause_up = pass-Up;
  has_config = λ d. (0, refl);
  has_client = λ c d. (c, refl);
  is_settled = settled_at;
  is_accepted = (node-IsAccepted, tt);
  is_pooled = (node-IsPooled, tt);
}

run_succeeds_example :
    (conns : Conns) × (connected after : Site) × HasPools slow_site 5 cfg cfg.nodes (ok conns)
    × (run slow_site 5 (none, [])
        ≡ some (as_failure (set_up slow_site 5 cfg conns (fresh slow_site connected)).0, after))
unfolding load load_nodes parse_bool timeout atoi decimal text_eq
run_succeeds_example =
    run_succeeds slow_site cfg Open Up slow-ComesUp 5 10 (omega arith) 30 (none, []) refl
      (30, refl, omega arith) (30, refl, omega arith) (omega arith)
