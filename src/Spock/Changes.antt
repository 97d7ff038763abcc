-- ===== src/Spock/Changes.antt =====
-- internal/spock: the methods `Create`, `Update` and `Delete` of roles, nodes, slots and subscriptions.
pub mod Aborted
mod Tests
use pgedge_helm.Base.{if◌then◌else◌, true, false, ◌++◌, Option, none}
use pgedge_helm.Base.Text.{Text, bytes}
use pgedge_helm.Resource.{Error}
use pgedge_helm.Spock.User.{PgEdgeUser}
use pgedge_helm.Spock.SpockNode.{SpockNode}
use pgedge_helm.Spock.ReplicationSlot
use pgedge_helm.Spock.ReplicationSlot.{ReplicationSlot}
use pgedge_helm.Spock.Subscription
use pgedge_helm.Spock.Subscription.{Subscription}
use pgedge_helm.Spock.ReplicationSlotCreate
use pgedge_helm.Spock.ReplicationSlotCreate.{ReplicationSlotCreate}
use pgedge_helm.Spock.DisabledSubscription
use pgedge_helm.Spock.DisabledSubscription.{DisabledSubscription}
use pgedge_helm.Spock.World.{
  Driver, Answer, answer, failure, World, repair_mode, create_role, node_create, node_drop,
  sub_create, sub_enable, sub_drop, terminate_walsender, drop_slot, create_slot, slot_exists,
  disabled_sub_exists,
}
use pgedge_helm.Spock.Flow.{
  goes, returns, Method, ◌>>=◌, ◌>>◌, leave, leave_if, when, call, refused, is_duplicate,
  unless_duplicate, finish, in_tx, tx_do, commit_tx,
}

abbrev pub ssl_settings : Text
ssl_settings =
    bytes
      "sslcert=/projected/pgedge/certificates/tls.crt sslkey=/projected/pgedge/certificates/tls.key sslmode=require"

-- `fmt.Sprintf("host=%s dbname=%s user=%s %s port=5432", ...)`
abbrev pub dsn_of : (hostname db_name pgedge_user : Text) → Text
dsn_of hostname db_name pgedge_user =
    bytes "host="
    ++ (hostname
        ++ (bytes " dbname="
            ++ (db_name
                ++ (bytes " user="
                    ++ (pgedge_user ++ (bytes " " ++ (ssl_settings ++ bytes " port=5432")))))))

module _ {D : Type 0} (driver : Driver D) where
  unfoldable pub create_user : PgEdgeUser → World D → Option Error × World D
  create_user u = in_tx driver u.conn (bytes "begin tx on " ++ u.node.name) (λ tx. do
    tx_do driver tx repair_mode (bytes "repair mode on " ++ u.node.name)
    call (unless_duplicate (bytes "create pgedge user on " ++ u.node.name))
        (driver.tx_exec tx (create_role u.pgedge_user))
    commit_tx driver tx (bytes "commit pgedge user on " ++ u.node.name))

  unfoldable pub create_node : SpockNode → World D → Option Error × World D
  create_node n = in_tx driver n.conn (bytes "begin tx on " ++ n.node.name) (λ tx. do
    tx_do driver tx repair_mode (bytes "enable repair mode on " ++ n.node.name)
    call (unless_duplicate (bytes "create spock node " ++ n.node.name)) (
        driver.tx_exec tx
          (node_create n.node.name (dsn_of n.node.hostname n.db_name n.pgedge_user)))
    commit_tx driver tx (bytes "commit spock node " ++ n.node.name))

  unfoldable pub delete_node : SpockNode → World D → Option Error × World D
  delete_node n = in_tx driver n.conn (bytes "begin delete tx on " ++ n.node.name) (λ tx. do
    tx_do driver tx repair_mode (bytes "enable repair mode on " ++ n.node.name)
    tx_do driver tx (node_drop n.node.name) (bytes "drop spock node " ++ n.node.name)
    commit_tx driver tx (bytes "commit drop spock node " ++ n.node.name))

  unfoldable pub delete_slot : ReplicationSlot → World D → Option Error × World D
  delete_slot r =
      let name = ReplicationSlot.slot_name r in
      in_tx driver r.conn (bytes "begin delete tx for slot " ++ name) (λ tx. do
        tx_do driver tx (terminate_walsender name) (bytes "terminate walsender for slot " ++ name)
        exists ←
            call (refused (bytes "check slot " ++ (name ++ bytes " before drop")))
              (driver.tx_bool tx (slot_exists name))
        when exists (tx_do driver tx (drop_slot name) (bytes "drop replication slot " ++ name))
        commit_tx driver tx (bytes "commit drop slot " ++ name))

  unfoldable pub create_replication_slot : ReplicationSlotCreate → World D → Option Error × World D
  create_replication_slot r =
      let name = ReplicationSlotCreate.slot_name r in
      finish (do
        exists ←
            call (refused (bytes "check slot " ++ name))
              (driver.query_bool r.conn (slot_exists name))
        leave_if exists
        call (refused (bytes "create replication slot " ++ name))
            (driver.exec r.conn (create_slot name)))

  -- Enables a subscription that is there but disabled, and creates it otherwise.
  unfoldable pub create_subscription : Subscription → World D → Option Error × World D
  create_subscription s =
      let name = Subscription.sub_name s in
      in_tx driver s.conn (bytes "begin tx for subscription " ++ name) (λ tx. do
        tx_do driver tx repair_mode (bytes "repair mode for subscription " ++ name)
        exists_disabled ←
            call (refused (bytes "check disabled subscription " ++ name))
              (driver.tx_bool tx (disabled_sub_exists name))
        when exists_disabled (do
          tx_do driver tx (sub_enable name) (bytes "enable subscription " ++ name)
          commit_tx driver tx (bytes "commit enable subscription " ++ name)
          leave none)
        call (unless_duplicate (bytes "create subscription " ++ name)) (
            driver.tx_exec tx
              (sub_create name (dsn_of s.src.hostname s.db_name s.pgedge_user) s.sync true))
        commit_tx driver tx (bytes "commit subscription " ++ name))

  unfoldable pub update_subscription : Subscription → World D → Option Error × World D
  update_subscription s =
      let name = Subscription.sub_name s in
      in_tx driver s.conn (bytes "begin tx for subscription update " ++ name) (λ tx. do
        tx_do driver tx repair_mode (bytes "repair mode for subscription update " ++ name)
        tx_do driver tx (sub_enable name) (bytes "enable subscription " ++ name)
        commit_tx driver tx (bytes "commit subscription update " ++ name))

  unfoldable pub delete_subscription : Subscription → World D → Option Error × World D
  delete_subscription s =
      let name = Subscription.sub_name s in
      in_tx driver s.conn (bytes "begin delete tx for " ++ name) (λ tx. do
        tx_do driver tx repair_mode (bytes "repair mode for drop " ++ name)
        tx_do driver tx (sub_drop name) (bytes "drop subscription " ++ name)
        commit_tx driver tx (bytes "commit drop subscription " ++ name))

  -- A call whose failure with the code of a duplicate does not end the method.
  abbrev pub tolerate_duplicate : Text → (D → Answer (Unit {0}) × D) → Method D (Unit {0})
  tolerate_duplicate what f w =
      let (result, d) = f w.databases in
      let v = record w { databases = d } in
      elim result [
        | answer _ ↦ (goes tt, v)
        | failure e ↦ if is_duplicate e then (goes tt, v) else (returns (refused what e), v)
      ]

  unfoldable pub create_disabled_subscription :
      DisabledSubscription → World D → Option Error × World D
  create_disabled_subscription s =
      let name = DisabledSubscription.sub_name s in
      in_tx driver s.conn (bytes "begin tx for disabled subscription " ++ name) (λ tx. do
        tx_do driver tx repair_mode (bytes "repair mode for disabled subscription " ++ name)
        tolerate_duplicate (bytes "create disabled subscription " ++ name) (
            driver.tx_exec tx
              (sub_create name (dsn_of s.src.hostname s.db_name s.pgedge_user) false false))
        commit_tx driver tx (bytes "commit disabled subscription " ++ name))
