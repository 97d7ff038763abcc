-- ===== src/Spock/World.antt =====
-- What the methods of internal/spock read and write: the fields of the objects that change, and
-- the databases behind their connections. PostgreSQL and pgx are a parameter, `Driver`.
use pgedge_helm.Base.{◌≡◌, refl, ◌⊎◌, inl, inr, ℕ, Bool, false, List, Option, if◌then◌else◌}
use pgedge_helm.Base.Text.{Text, bytes, byte_eq}
use pgedge_helm.Resource.{Status, Error, message}
use pgedge_helm.Spock.Types.{Conn, Address}

-- What a call of the driver fails with. A `pgconn.PgError` has a code.
pub data DriverError : Type 0 where
  pg_error : (code : Text) → DriverError
  no_rows : DriverError
  other_error : Text → DriverError

pub data Answer {ℓ} (A : Type ℓ) : Type ℓ where
  answer : A → Answer A
  failure : DriverError → Answer A

pub Answer-cases :
    {A : Type 0} (r : Answer A) → ((a : A) × (r ≡ answer a)) ⊎ ((e : DriverError) × (r ≡ failure e))
Answer-cases (answer a) = inl (a, refl)
Answer-cases (failure e) = inr (e, refl)

-- The queries of the source, by what they ask.
pub data Query : Type 0 where
  -- SELECT EXISTS(SELECT 1 FROM pg_roles WHERE rolname = $1)
  role_exists : Text → Query
  -- SELECT EXISTS(SELECT 1 FROM spock.node n JOIN spock.local_node ln ... WHERE n.node_name = $1)
  local_node_exists : Text → Query
  -- SELECT EXISTS(SELECT 1 FROM pg_replication_slots WHERE slot_name = $1)
  slot_exists : Text → Query
  -- SELECT EXISTS(SELECT 1 FROM spock.subscription WHERE sub_name = $1)
  sub_exists : Text → Query
  -- SELECT sub_enabled FROM spock.subscription WHERE sub_name = $1
  sub_enabled : Text → Query
  -- SELECT EXISTS(SELECT 1 FROM spock.subscription WHERE sub_name = $1 AND NOT sub_enabled)
  disabled_sub_exists : Text → Query
  -- SELECT EXISTS(SELECT 1 FROM pg_replication_slots WHERE slot_name = $1 AND active_pid IS NOT NULL)
  slot_active : Text → Query
  -- SELECT $1::pg_lsn <= $2::pg_lsn
  lsn_at_or_before : Text → Text → Query
  -- SELECT EXISTS(SELECT 1 FROM pg_extension WHERE extname = 'spock')
  spock_extension_exists : Query
  -- SELECT COALESCE((SELECT p.remote_lsn >= $1::pg_lsn FROM spock.progress p ...), false)
  progress_reached : (lsn peer : Text) → Query
  -- CALL spock.wait_for_sync_event(true, $1, $2, $3), which blocks for up to $3 seconds
  wait_for_sync_event_call : (provider lsn : Text) → (seconds : ℕ) → Query

pub data TextQuery : Type 0 where
  -- SELECT spock.sync_event()
  send_sync_event : TextQuery
  -- SELECT spock.get_lsn_from_commit_ts($1, $2)::text
  lsn_from_commit_ts : (slot : Text) → (commit_ts : ℕ) → TextQuery
  -- SELECT restart_lsn::text FROM pg_replication_slots WHERE slot_name = $1
  restart_lsn : Text → TextQuery
  -- SELECT status FROM spock.sub_show_status() WHERE subscription_name = $1
  sub_status : Text → TextQuery

-- A `time.Time` is a number, the zero time 0.
pub data TimeQuery : Type 0 where
  -- SELECT commit_timestamp FROM spock.lag_tracker WHERE origin_name = $1 AND receiver_name = $2
  lag_commit_timestamp : (origin receiver : Text) → TimeQuery

-- internal/spock/repset.go: a replication set, and a table in one.
pub record ReplicationSet : Type 0 where
  pub name : Text
  pub replicate_insert : Bool
  pub replicate_update : Bool
  pub replicate_delete : Bool
  pub replicate_truncate : Bool

pub record ReplicationSetTable : Type 0 where
  pub set_name : Text
  pub table_name : Text
  pub att_list : Option Text
  pub row_filter : Option Text

-- Rows as they are scanned, and `rows.Err()` behind them.
pub record Rows (A : Type 0) : Type 0 where
  pub scanned : List (Answer A)
  pub rows_err : Option DriverError

pub data Statement : Type 0 where
  -- DROP EXTENSION IF EXISTS spock CASCADE
  drop_extension : Statement
  -- CREATE EXTENSION IF NOT EXISTS spock
  create_extension : Statement
  -- SELECT pg_terminate_backend(active_pid) ... WHERE slot_type = 'logical' AND slot_name LIKE 'spk_%' AND active
  terminate_walsenders : Statement
  -- SELECT pg_drop_replication_slot(slot_name) ... WHERE slot_type = 'logical' AND slot_name LIKE 'spk_%'
  drop_spock_slots : Statement
  -- SELECT pg_replication_origin_drop(roname) ... WHERE roname LIKE 'spk_%'
  drop_spock_origins : Statement
  -- SELECT spock.node_create($1, $2)
  node_create_always : (name dsn : Text) → Statement
  -- SELECT spock.repset_create($1, $2, $3, $4, $5)
  repset_create : ReplicationSet → Statement
  -- SELECT spock.repset_add_table($1, $2, false, $3, $4)
  repset_add_table : ReplicationSetTable → Statement
  -- SELECT spock.repair_mode('True')
  repair_mode : Statement
  -- CREATE ROLE ... WITH LOGIN SUPERUSER REPLICATION
  create_role : Text → Statement
  -- SELECT spock.node_create(...) WHERE $1 NOT IN (SELECT node_name FROM spock.node)
  node_create : (name dsn : Text) → Statement
  -- SELECT spock.node_drop($1, true)
  node_drop : Text → Statement
  -- SELECT spock.sub_create(...) WHERE $1 NOT IN (SELECT sub_name FROM spock.subscription)
  sub_create : (name dsn : Text) → (synchronize enabled : Bool) → Statement
  -- SELECT spock.sub_enable($1)
  sub_enable : Text → Statement
  -- SELECT spock.sub_drop($1, true)
  sub_drop : Text → Statement
  -- SELECT pg_terminate_backend(active_pid) FROM pg_replication_slots WHERE slot_name = $1 AND active
  terminate_walsender : Text → Statement
  -- SELECT pg_drop_replication_slot($1)
  drop_slot : Text → Statement
  -- SELECT pg_create_logical_replication_slot($1, 'spock_output')
  create_slot : Text → Statement
  -- WITH current AS (...) SELECT CASE WHEN ... THEN (pg_replication_slot_advance($1, $2)).end_lsn ...
  advance_slot : (slot lsn : Text) → Statement
  -- SELECT pg_replication_origin_create($1) WHERE NOT EXISTS (...)
  ensure_origin : Text → Statement
  -- SELECT pg_replication_origin_advance($1, $2::pg_lsn)
  advance_origin : (origin lsn : Text) → Statement

-- The rows of a query for texts: a row that cannot be scanned is `none`.
pub data RowsQuery : Type 0 where
  -- SELECT node_name FROM spock.node WHERE node_name != ALL($1::text[])
  nodes_outside : List Text → RowsQuery
  -- SELECT slot_name FROM pg_replication_slots WHERE slot_type = 'logical' AND slot_name LIKE 'spk_%'
  spock_slots : RowsQuery

-- A transaction, as a handle.
abbrev pub Tx : Type 0
Tx = ℕ

-- A rollback behind a commit does nothing, which is up to the driver too.
pub record Driver (D : Type 0) : Type 0 where
  pub query_bool : Conn → Query → D → Answer Bool × D
  pub query_rows : Conn → RowsQuery → D → Answer (List (Option Text)) × D
  -- SELECT set_name, ... FROM spock.replication_set ORDER BY set_id
  pub query_sets : Conn → D → Answer (Rows ReplicationSet) × D
  -- SELECT rs.set_name, ... FROM spock.replication_set_table rst JOIN ... ORDER BY rst.set_id, rst.set_reloid
  pub query_set_tables : Conn → D → Answer (Rows ReplicationSetTable) × D
  pub query_text : Conn → TextQuery → D → Answer Text × D
  pub query_time : Conn → TimeQuery → D → Answer ℕ × D
  pub exec : Conn → Statement → D → Answer (Unit {0}) × D
  pub begin : Conn → D → Answer Tx × D
  pub tx_exec : Tx → Statement → D → Answer (Unit {0}) × D
  pub tx_bool : Tx → Query → D → Answer Bool × D
  pub tx_text : Tx → TextQuery → D → Answer Text × D
  pub commit : Tx → D → Answer (Unit {0}) × D
  pub rollback : Tx → D → D
  -- `ctx.Err()`, for the context of the whole run.
  pub ctx_err : D → Option Error
  -- `time.After`, in milliseconds
  pub sleep : ℕ → D → D

pub record World (D : Type 0) : Type 0 where
  pub next : Address
  pub status : Address → Status
  -- `SyncEvent.LSN`
  pub lsn : Address → Text
  -- `LagTrackerCommitTimestamp.CommitTS`
  pub commit_ts : Address → Option ℕ
  -- `ReplicationSlotAdvanceFromCTS.AdvancedToLSN`
  pub advanced_to : Address → Text
  pub databases : D

abbrev pub no_status : Status
no_status = record {
  exists = false;
  needs_recreate = false;
  needs_update = false;
  reason = bytes "";
}

-- A field of the object at an address is set.
abbrev pub set_at : {A : Type 0} → Address → A → (Address → A) → Address → A
set_at a x f b = if byte_eq b a then x else f b

abbrev pub set_status : Address → Status → (Address → Status) → Address → Status
set_status a s f b = if byte_eq b a then s else f b

-- A driver's error as a Go error.
abbrev pub to_error : DriverError → Error
to_error (pg_error code) = message code
to_error no_rows = message (bytes "no rows in result set")
to_error (other_error text) = message text
