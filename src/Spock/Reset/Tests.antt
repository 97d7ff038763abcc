-- ===== src/Spock/Reset/Tests.antt =====
-- A reset of a node with one replication set of its own, on databases that are their log.
use pgedge_helm.Base.{ℕ, zero, suc, arith, refl, ◌≡◌, true, false, List, [], ◌∷◌, ◌++◌, none, some}
use pgedge_helm.Base.Text.{bytes, text_eq}
use pgedge_helm.Config.{Node, Config}
use pgedge_helm.Spock.Types.{Conn}
use pgedge_helm.Spock.Desired.{Conns}
use pgedge_helm.Spock.World.{
  Driver, Tx, World, answer, no_status, Statement, ReplicationSet, ReplicationSetTable,
}
use pgedge_helm.Spock.Repset.{RepsetSnapshot, backup_repsets, restore_repsets}
use pgedge_helm.Spock.Repset.Saved.{IsSnapshot}
use pgedge_helm.Spock.Reset.{reset_node}
use pgedge_helm.Spock.Reset.Restores.{LogsAll, rebuilt, reset_node-IsSnapshot}

abbrev orders : ReplicationSet
orders = record {
  name = bytes "orders";
  replicate_insert = true;
  replicate_update = true;
  replicate_delete = false;
  replicate_truncate = false;
}

abbrev orders_table : ReplicationSetTable
orders_table = record {
  set_name = bytes "orders";
  table_name = bytes "public.orders";
  att_list = none;
  row_filter = none;
}

abbrev catalog : Driver (List Statement)
catalog = record {
  query_bool = λ c q d. (answer true, d);
  query_rows = λ c q d. (answer [], d);
  query_sets = λ c d. (answer (record { scanned = answer orders ∷ []; rows_err = none }), d);
  query_set_tables =
      λ c d. (answer (record { scanned = answer orders_table ∷ []; rows_err = none }), d);
  query_text = λ c q d. (answer (bytes "0/1"), d);
  query_time = λ c q d. (answer 7, d);
  exec = λ c s d. (answer tt, d ++ s ∷ []);
  begin = λ c d. (answer 0, d);
  tx_exec = λ t s d. (answer tt, d ++ s ∷ []);
  tx_bool = λ t q d. (answer true, d);
  tx_text = λ t q d. (answer (bytes "0/1"), d);
  commit = λ t d. (answer tt, d);
  rollback = λ t d. d;
  ctx_err = λ d. none;
  sleep = λ n d. d;
}

catalog-LogsAll : LogsAll catalog (λ d. d)
catalog-LogsAll = record {
  in_transactions = record {
    logs_exec = λ tx s d h. refl;
    logs_begin = λ c d. refl;
    logs_commit = λ tx d. refl;
    logs_rollback = λ tx d. refl;
  };
  logs_done = λ c s d h. refl;
  logs_failed = λ c s e d h. absurd (ground arith);
  logs_no_query = λ c q d. refl;
  logs_no_sets = λ c d. refl;
  logs_no_tables = λ c d. refl;
}

abbrev start : World (List Statement)
start = record {
  next = 0;
  status = λ a. no_status;
  lsn = λ a. [];
  commit_ts = λ a. none;
  advanced_to = λ a. [];
  databases = [];
}

abbrev n1 : Node
n1 = record {
  name = bytes "n1";
  hostname = bytes "n1";
  internal_hostname = [];
  bootstrap = record { mode = bytes "cnpg"; source_node = [] };
}

reset_node-IsSnapshot_example :
    (snap : RepsetSnapshot) × IsSnapshot catalog (some 1) [] snap
    × ((reset_node catalog (some 1) n1 (bytes "app") (bytes "pgedge") start).1.databases
        ≡ []
          ++ rebuilt catalog
              (λ d. d)
              catalog-LogsAll
              (some 1)
              n1
              (bytes "app")
              (bytes "pgedge")
              (backup_repsets catalog (some 1) (bytes "n1") start).1.databases
              snap)
unfolding reset_node backup_repsets restore_repsets text_eq
reset_node-IsSnapshot_example =
    reset_node-IsSnapshot catalog (λ d. d) catalog-LogsAll (some 1) n1 (bytes "app")
      (bytes "pgedge") start refl refl

-- Two nodes, of which the first is restored from a backup, and the logs of both.
abbrev Logs : Type 0
Logs = List Statement × List Statement

abbrev ran_at : ℕ → Statement → Logs → Logs
ran_at (suc zero) s d = (d.0 ++ s ∷ [], d.1)
ran_at _ s d = (d.0, d.1 ++ s ∷ [])

abbrev number_of : Conn → ℕ
number_of none = 0
number_of (some n) = n

abbrev both : Driver Logs
both = record {
  query_bool = λ c q d. (answer true, d);
  query_rows = λ c q d. (answer [], d);
  query_sets = λ c d. (answer (record { scanned = answer orders ∷ []; rows_err = none }), d);
  query_set_tables =
      λ c d. (answer (record { scanned = answer orders_table ∷ []; rows_err = none }), d);
  query_text = λ c q d. (answer (bytes "0/1"), d);
  query_time = λ c q d. (answer 7, d);
  exec = λ c s d. (answer tt, ran_at (number_of c) s d);
  begin = λ c d. (answer (number_of c), d);
  tx_exec = λ t s d. (answer tt, ran_at t s d);
  tx_bool = λ t q d. (answer true, d);
  tx_text = λ t q d. (answer (bytes "0/1"), d);
  commit = λ t d. (answer tt, d);
  rollback = λ t d. d;
  ctx_err = λ d. none;
  sleep = λ n d. d;
}

-- The second log is empty, within a transaction of the first connection too.
abbrev Silent : Logs → Type 0
Silent d = d.1 ≡ []

abbrev SilentInside : Tx → Logs → Type 0
SilentInside tx d = (tx ≡ 1) × (d.1 ≡ [])

abbrev n2 : Node
n2 = record n1 {
  name = bytes "n2";
  bootstrap = record { mode = bytes "spock"; source_node = bytes "n1" };
}

abbrev restored_pair : Config
restored_pair = record {
  app_name = bytes "pgedge";
  db_name = bytes "app";
  namespace = bytes "default";
  admin_user = bytes "admin";
  pgedge_user = bytes "pgedge";
  reset_spock = false;
  nodes = n1 ∷ n2 ∷ [];
}

abbrev pools : Conns
pools = (bytes "n1", 1) ∷ (bytes "n2", 2) ∷ []

abbrev silence : World Logs
silence = record {
  next = 0;
  status = λ a. no_status;
  lsn = λ a. [];
  commit_ts = λ a. none;
  advanced_to = λ a. [];
  databases = ([], []);
}
