-- ===== src/Config/Tests.antt =====
-- A run of `Load` where the administrator is the default one, and Spock is to be reset.
use pgedge_helm.Base.{refl, true, [], some, ◌==◌, if◌then◌else◌}
use pgedge_helm.Base.Text.{bytes, text_key, text_eq}
use pgedge_helm.Config.{Config, Surroundings, parse_bool, load}
use pgedge_helm.Config.Valid.{IsComplete, load-IsComplete}

abbrev sparse : Surroundings
sparse = record {
  getenv = λ name.
      if name == bytes "APP_NAME"
      then bytes "pgedge"
      else if name == bytes "DB_NAME"
      then bytes "app"
      else if name == bytes "NAMESPACE"
      then bytes "prod"
      else if name == bytes "RESET_SPOCK"
      then bytes "true"
      else [];
  read_file = λ path. some (bytes "[]");
  unmarshal_nodes = λ contents. some [];
}

abbrev minimal : Config
minimal = record {
  app_name = bytes "pgedge";
  db_name = bytes "app";
  namespace = bytes "prod";
  admin_user = bytes "admin";
  pgedge_user = bytes "pgedge";
  reset_spock = true;
  nodes = [];
}

load-IsComplete_example : IsComplete sparse (bytes "nodes.yaml") minimal
unfolding load text_eq parse_bool
load-IsComplete_example = load-IsComplete sparse (bytes "nodes.yaml") minimal refl
