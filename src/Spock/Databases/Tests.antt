-- ===== src/Spock/Databases/Tests.antt =====
-- Databases in memory: what is committed, and one transaction at a time.
use pgedge_helm.Base.{
  Bool, true, false, [], some, none, ◌≡◌, refl, arith, if◌then◌else◌, Option-cases,
}
use pgedge_helm.Base.Text.{bytes, byte_eq}
use pgedge_helm.Config.{Node}
use pgedge_helm.Spock.Types.{Conn}
use pgedge_helm.Spock.SpockNode.{SpockNode, new_spock_node}
use pgedge_helm.Spock.Object.{node}
use pgedge_helm.Spock.World.{Driver, World, answer, no_status, Query, Statement, Tx}
use pgedge_helm.Spock.Methods.{existing, refresh_body, refresh_node}
use pgedge_helm.Spock.Changes.{create_node, delete_node}
use pgedge_helm.Spock.Reconcile.{create_body, delete_body}
use pgedge_helm.Spock.Databases.{Facts, says, changes, IsDatabase}
use pgedge_helm.Spock.Databases.Created.{made_node, create_body-refresh_body}
use pgedge_helm.Spock.Databases.Deleted.{dropped_node, delete_body-refresh_body}

record Store : Type 0 where
  committed : Conn → Facts
  at : Conn
  pending : Facts

abbrev conn_eq : Conn → Conn → Bool
conn_eq none none = true
conn_eq none (some b) = false
conn_eq (some a) none = false
conn_eq (some a) (some b) = byte_eq a b

conn_eq_refl : (c : Conn) → conn_eq c c ≡ true
conn_eq_refl none = refl
conn_eq_refl (some a) = ground arith

abbrev ran : Statement → Store → Store
ran s d = elim (changes s) [ none ↦ d | some f ↦ record d { pending = f d.pending } ]

abbrev known : Query → Facts → Bool
known q F = elim (says q F) [ none ↦ false | some b ↦ b ]

abbrev in_memory : Driver Store
in_memory = record {
  query_bool = λ c q d. (answer (known q (d.committed c)), d);
  query_rows = λ c q d. (answer [], d);
  query_sets = λ c d. (answer (record { scanned = []; rows_err = none }), d);
  query_set_tables = λ c d. (answer (record { scanned = []; rows_err = none }), d);
  query_text = λ c q d. (answer (bytes "0/1"), d);
  query_time = λ c q d. (answer 7, d);
  exec = λ c s d. (answer tt, d);
  begin = λ c d. (answer 0, record d { at = c; pending = d.committed c });
  tx_exec = λ tx s d. (answer tt, ran s d);
  tx_bool = λ tx q d. (answer (known q d.pending), d);
  tx_text = λ tx q d. (answer (bytes "0/1"), d);
  commit = λ tx d. (
    answer tt,
    record d { committed = λ c. if conn_eq c d.at then d.pending else d.committed c },
  );
  rollback = λ tx d. d;
  ctx_err = λ d. none;
  sleep = λ n d. d;
}

abbrev view : Conn → Store → Facts
view c d = d.committed c

abbrev home : Tx → Store → Conn
home tx d = d.at

abbrev pending : Tx → Store → Facts
pending tx d = d.pending

in_memory-IsDatabase : IsDatabase in_memory view home pending
in_memory-IsDatabase = record {
  begins = λ c d tx h. (refl, refl);
  begin_hides = λ c b d. refl;
  runs = λ tx s d f h k. (ground arith, ground arith);
  run_hides = λ c tx s d h. ground (arith, Option-cases (changes s));
  duplicates = λ tx s d f e h k. absurd (ground arith);
  tx_asks = λ tx q d a b h k. ground arith;
  tx_ask_keeps = λ tx q d. (refl, refl);
  tx_ask_hides = λ c tx q d. refl;
  commits = λ tx d h. ground (arith, conn_eq_refl d.at);
  rolls_back = λ c tx d. refl;
  asks = λ c q d a b h k. ground arith;
  ask_keeps = λ c b q d. refl;
}

abbrev empty : Facts
empty = record {
  roles = λ n. false;
  nodes = λ n. false;
  local_nodes = λ n. false;
  slots = λ n. false;
  subs = λ n. false;
  enabled = λ n. false;
}

abbrev start : World Store
start = record {
  next = 0;
  status = λ a. no_status;
  lsn = λ a. [];
  commit_ts = λ a. none;
  advanced_to = λ a. [];
  databases = record { committed = λ c. empty; at = none; pending = empty };
}

abbrev n1 : Node
n1 = record {
  name = bytes "n1";
  hostname = bytes "n1";
  internal_hostname = [];
  bootstrap = record { mode = []; source_node = [] };
}

abbrev node1 : SpockNode
node1 = new_spock_node n1 (bytes "app") (bytes "pgedge") (some 1)

create_body-refresh_body_example :
    (refresh_body in_memory 5
        (node node1)
        (create_body in_memory 0 5 (node node1) false start).1).1.status
      5
    ≡ existing in_memory true
unfolding create_body create_node refresh_body refresh_node new_spock_node
create_body-refresh_body_example =
    create_body-refresh_body in_memory view home pending in_memory-IsDatabase 0 5 (node node1) false
      start (made_node node1 (λ h. absurd (ground arith))) refl refl

-- The node is there.
abbrev made : World Store
made = (create_body in_memory 0 5 (node node1) false start).1

delete_body-refresh_body_example :
    (refresh_body in_memory 5 (node node1) (delete_body in_memory (node node1) made).1).1.status 5
    ≡ no_status
unfolding delete_body delete_node create_body create_node refresh_body refresh_node new_spock_node
delete_body-refresh_body_example =
    delete_body-refresh_body in_memory view home pending in_memory-IsDatabase 5 (node node1) made
      (dropped_node node1) refl refl
