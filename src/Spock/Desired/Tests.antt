-- ===== src/Spock/Desired/Tests.antt =====
-- Two nodes.
use mathlib.Core.List.{Memᴰ}
use pgedge_helm.Base.{refl, false, [], ◌∷◌}
use pgedge_helm.Base.Text.{Text, bytes, text_eq}
use pgedge_helm.Config.{Node, Config}
use pgedge_helm.Spock.Desired.{Conns, compute_desired}
use pgedge_helm.Spock.Desired.Joined.{IsJoined, compute_desired-IsJoined, plain-NamesApart}

abbrev named : Text → Node
named name = record {
  name = name;
  hostname = name;
  internal_hostname = [];
  bootstrap = record { mode = []; source_node = [] };
}

abbrev pair : Config
pair = record {
  app_name = bytes "pgedge";
  db_name = bytes "app";
  namespace = bytes "default";
  admin_user = bytes "admin";
  pgedge_user = bytes "pgedge";
  reset_spock = false;
  nodes = named (bytes "n1") ∷ named (bytes "n2") ∷ [];
}

abbrev pools : Conns
pools = (bytes "n1", 1) ∷ (bytes "n2", 2) ∷ []

compute_desired-IsJoined_example :
    IsJoined pair pools
      (named (bytes "n2"))
      (named (bytes "n1"))
      (compute_desired pair pools 0).resources
unfolding text_eq
compute_desired-IsJoined_example =
    compute_desired-IsJoined pair pools 0 (named (bytes "n2")) (named (bytes "n1"))
      (plain-NamesApart pair (refl, (refl, tt)) ((refl, refl), ((refl, refl), tt)))
      (Memᴰ.tail (Memᴰ.head refl)) (Memᴰ.head refl) refl
