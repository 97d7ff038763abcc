-- ===== src/Spock/Changes/Tests.antt =====
-- A subscription that exists already. The databases say whether the transaction is aborted.
use pgedge_helm.Base.{
  Bool, true, false, ◌≡◌, refl, [], some, none, arith, if◌then◌else◌, Bool-cases, inl, inr,
}
use pgedge_helm.Base.Text.{bytes}
use pgedge_helm.Config.{Node}
use pgedge_helm.Resource.{Error}
use pgedge_helm.Spock.DisabledSubscription.{DisabledSubscription, new_disabled_subscription}
use pgedge_helm.Spock.World.{
  Driver, DriverError, World, answer, failure, no_status, Statement, repair_mode, pg_error,
}
use pgedge_helm.Spock.World
use pgedge_helm.Spock.Changes.{create_disabled_subscription}
use pgedge_helm.Spock.Changes.Aborted.{Aborts, create_disabled_subscription-Aborts}

abbrev is_repair : Statement → Bool
is_repair World.repair_mode = true
is_repair _ = false

abbrev duplicate : DriverError
duplicate = pg_error (bytes "42710")

abbrev taken : Driver Bool
taken = record {
  query_bool = λ c q d. (answer true, d);
  query_rows = λ c q d. (answer [], d);
  query_sets = λ c d. (answer (record { scanned = []; rows_err = none }), d);
  query_set_tables = λ c d. (answer (record { scanned = []; rows_err = none }), d);
  query_text = λ c q d. (answer (bytes "0/1"), d);
  query_time = λ c q d. (answer 7, d);
  exec = λ c s d. (answer tt, d);
  begin = λ c d. (answer 0, false);
  tx_exec = λ tx s d. if is_repair s then (answer tt, d) else (failure duplicate, true);
  tx_bool = λ tx q d. (answer true, d);
  tx_text = λ tx q d. (answer (bytes "0/1"), d);
  commit = λ tx d. if d then (failure (pg_error (bytes "25P02")), d) else (answer tt, d);
  rollback = λ tx d. d;
  ctx_err = λ d. none;
  sleep = λ n d. d;
}

taken-Aborts : Aborts taken
taken-Aborts tx s d e h = elim (Bool-cases (is_repair s)) [
  | inl repair ↦ absurd (ground arith)
  | inr other ↦ (pg_error (bytes "25P02"), ground arith)
]

abbrev start : World Bool
start = record {
  next = 0;
  status = λ a. no_status;
  lsn = λ a. [];
  commit_ts = λ a. none;
  advanced_to = λ a. [];
  databases = false;
}

abbrev n1 : Node
n1 = record {
  name = bytes "n1";
  hostname = bytes "n1";
  internal_hostname = [];
  bootstrap = record { mode = []; source_node = [] };
}

abbrev n2 : Node
n2 = record n1 { name = bytes "n2" }

abbrev disabled : DisabledSubscription
disabled = new_disabled_subscription n1 n2 (bytes "app") (bytes "pgedge") (some 1)

create_disabled_subscription-Aborts_example :
    (x : Error) × ((create_disabled_subscription taken disabled start).0 ≡ some x)
unfolding new_disabled_subscription
create_disabled_subscription-Aborts_example =
    create_disabled_subscription-Aborts taken taken-Aborts disabled start 0 duplicate refl refl refl
