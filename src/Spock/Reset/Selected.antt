-- ===== src/Spock/Reset/Selected.antt =====
-- `ResetBootstrappedNodes` (internal/spock/reset.go): which nodes it resets.
use mathlib.Core.List.{Memᴰ}
use pgedge_helm.Base.{◌≡◌, ◌≢◌, ◌⊎◌, List, ◌++◌, Option, none, some, All}
use pgedge_helm.Base.Text.{bytes, text_key}
use pgedge_helm.Config.{Node, Config}
use pgedge_helm.Resource.{Error, context}
use pgedge_helm.Spock.Desired.{Conns, conn_of}
use pgedge_helm.Spock.World.{Driver, Tx, World}
use pgedge_helm.Spock.Reset.{reset_node}
use pgedge_helm.Spock.Flow.Keeps.{Spares}

module _ {D : Type 0} (driver : Driver D) (cfg : Config) (conns : Conns) where
  abbrev pub reset : Node → World D → Option Error × World D
  reset n = reset_node driver (conn_of conns n.name) n cfg.db_name cfg.pgedge_user

  -- How the resets end: each node with bootstrap mode cnpg was reset, or the reset of one failed.
  pub data Ended (ns : List Node) : Option Error → Type 0 where
    all_reset :
        All
          (λ n. (n.bootstrap.mode ≢ bytes "cnpg") ⊎ ((u v : World D) × (reset n u ≡ (none, v))))
          ns
        → Ended ns none
    one_failed :
        (n : Node) (u v : World D) (cause : Error)
        → Memᴰ n ns
        → n.bootstrap.mode ≡ bytes "cnpg"
        → reset n u ≡ (some cause, v)
        → Ended ns (some (context (bytes "reset bootstrapped node " ++ n.name) cause))

  module _ (P : D → Type 0) (Inside : Tx → D → Type 0) where
    -- Only the connections of nodes with bootstrap mode cnpg have to leave it as it is.
    abbrev pub AllSpare : List Node → Type 0
    AllSpare =
        All (λ n. (n.bootstrap.mode ≢ bytes "cnpg") ⊎ Spares driver (conn_of conns n.name) P Inside)
