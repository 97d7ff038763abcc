-- ===== src/Spock/Databases.antt =====
-- What the statements and queries of internal/spock mean, as PostgreSQL and Spock document them: the
-- specification that the methods of the resources are held against.
pub mod Transactions
pub mod Refreshed
pub mod Created
pub mod Deleted
mod Tests
use pgedge_helm.Base.{ℕ, Bool, true, false, ◌&&◌, not, Option, some, none, ◌≡◌, if◌then◌else◌, ◌==◌}
use pgedge_helm.Base.Text.{Text, text_key}
use pgedge_helm.Spock.Types.{Conn}
use pgedge_helm.Spock.World
use pgedge_helm.Spock.World.{Driver, DriverError, answer, failure, Query, Statement, Tx}
use pgedge_helm.Spock.Flow.{is_duplicate}

-- What there is in a database, by name.
pub record Facts : Type 0 where
  pub roles : Text → Bool
  -- spock.node, and which of it is the local node
  pub nodes : Text → Bool
  pub local_nodes : Text → Bool
  pub slots : Text → Bool
  pub subs : Text → Bool
  pub enabled : Text → Bool

abbrev pub put : Text → Bool → (Text → Bool) → Text → Bool
put name b f n = if n == name then b else f n

-- What a query answers, for those about the facts.
abbrev pub says : Query → Facts → Option Bool
says (World.role_exists r) F = some (F.roles r)
says (World.local_node_exists n) F = some (F.local_nodes n)
says (World.slot_exists s) F = some (F.slots s)
says (World.sub_exists s) F = some (F.subs s)
says (World.sub_enabled s) F = some (F.enabled s)
says (World.disabled_sub_exists s) F = some (F.subs s && not (F.enabled s))
says _ F = none

-- `node_create` and `sub_create` do nothing where the name is taken.
abbrev pub made_node : Text → Facts → Facts
made_node n F =
    if F.nodes n
    then F
    else record F { nodes = put n true F.nodes; local_nodes = put n true F.local_nodes }

abbrev pub made_sub : Text → Bool → Facts → Facts
made_sub s on F =
    if F.subs s then F else record F { subs = put s true F.subs; enabled = put s on F.enabled }

-- What a statement changes, for those that the methods run.
abbrev pub changes : Statement → Option (Facts → Facts)
changes World.repair_mode = some (λ F. F)
changes (World.create_role r) = some (λ F. record F { roles = put r true F.roles })
changes (World.node_create n dsn) = some (made_node n)
changes (World.node_drop n) =
    some (λ F. record F { nodes = put n false F.nodes; local_nodes = put n false F.local_nodes })
changes (World.sub_create s dsn sync on) = some (made_sub s on)
changes (World.sub_enable s) = some (λ F. record F { enabled = put s true F.enabled })
changes (World.sub_drop s) =
    some (λ F. record F { subs = put s false F.subs; enabled = put s false F.enabled })
changes (World.terminate_walsender s) = some (λ F. F)
changes (World.create_slot s) = some (λ F. record F { slots = put s true F.slots })
changes (World.drop_slot s) = some (λ F. record F { slots = put s false F.slots })
changes _ = none

-- Whether a statement takes effect with the commit. Slots are made and dropped at once.
abbrev pub is_transactional : Statement → Bool
is_transactional (World.terminate_walsender s) = false
is_transactional (World.create_slot s) = false
is_transactional (World.drop_slot s) = false
is_transactional World.terminate_walsenders = false
is_transactional World.drop_spock_slots = false
is_transactional (World.advance_slot s lsn) = false
is_transactional _ = true

-- A driver that is backed by such databases: `view c` is what is committed behind a connection,
-- `pending tx` what a transaction sees, which `home tx` shows once it commits.
pub record IsDatabase {D : Type 0} (driver : Driver D) (view : Conn → D → Facts)
    (home : Tx → D → Conn) (pending : Tx → D → Facts) : Type 0 where
  pub begins :
      (c : Conn) (d : D) (tx : Tx)
      → (driver.begin c d).0 ≡ answer tx
      → (home tx (driver.begin c d).1 ≡ c) × (pending tx (driver.begin c d).1 ≡ view c d)
  pub begin_hides : (c b : Conn) (d : D) → view c (driver.begin b d).1 ≡ view c d
  pub runs :
      (tx : Tx) (s : Statement) (d : D) (f : Facts → Facts)
      → changes s ≡ some f
      → (driver.tx_exec tx s d).0 ≡ answer tt
      → (home tx (driver.tx_exec tx s d).1 ≡ home tx d)
        × (pending tx (driver.tx_exec tx s d).1 ≡ f (pending tx d))
  pub run_hides :
      (c : Conn) (tx : Tx) (s : Statement) (d : D)
      → is_transactional s ≡ true
      → view c (driver.tx_exec tx s d).1 ≡ view c d
  -- A statement fails with duplicate_object where what it makes is there.
  pub duplicates :
      (tx : Tx) (s : Statement) (d : D) (f : Facts → Facts) (e : DriverError)
      → changes s ≡ some f
      → (driver.tx_exec tx s d).0 ≡ failure e
      → is_duplicate e ≡ true
      → (q : Query) (b : Bool) → says q (f (pending tx d)) ≡ some b
      → says q (pending tx d) ≡ some b
  pub tx_asks :
      (tx : Tx) (q : Query) (d : D) (a b : Bool)
      → (driver.tx_bool tx q d).0 ≡ answer a
      → says q (pending tx d) ≡ some b
      → a ≡ b
  pub tx_ask_keeps :
      (tx : Tx) (q : Query) (d : D)
      → (home tx (driver.tx_bool tx q d).1 ≡ home tx d)
        × (pending tx (driver.tx_bool tx q d).1 ≡ pending tx d)
  pub tx_ask_hides :
      (c : Conn) (tx : Tx) (q : Query) (d : D) → view c (driver.tx_bool tx q d).1 ≡ view c d
  pub commits :
      (tx : Tx) (d : D)
      → (driver.commit tx d).0 ≡ answer tt
      → view (home tx d) (driver.commit tx d).1 ≡ pending tx d
  pub rolls_back : (c : Conn) (tx : Tx) (d : D) → view c (driver.rollback tx d) ≡ view c d
  pub asks :
      (c : Conn) (q : Query) (d : D) (a b : Bool)
      → (driver.query_bool c q d).0 ≡ answer a
      → says q (view c d) ≡ some b
      → a ≡ b
  pub ask_keeps : (c b : Conn) (q : Query) (d : D) → view c (driver.query_bool b q d).1 ≡ view c d
