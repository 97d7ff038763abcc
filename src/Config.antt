-- ===== src/Config.antt =====
-- internal/config/config.go: the configuration of the job, and how it is read.
pub mod Valid
mod Tests
use pgedge_helm.Base.{Bool, List, [], ◌∷◌, Option, none, some, elem}
use pgedge_helm.Base.Text.{Text, bytes, text_key, text_eq}

pub record NodeBootstrap : Type 0 where
  pub mode : Text
  pub source_node : Text

pub record Node : Type 0 where
  pub name : Text
  pub hostname : Text
  pub internal_hostname : Text
  pub bootstrap : NodeBootstrap

pub record Config : Type 0 where
  pub app_name : Text
  pub db_name : Text
  pub namespace : Text
  pub admin_user : Text
  pub pgedge_user : Text
  pub reset_spock : Bool
  pub nodes : List Node

pub data Error : Type 0 where
  read_nodes_config parse_nodes_config app_name_required db_name_required : Error

-- What `Load` returns.
pub data Loaded (A : Type 0) : Type 0 where
  loaded : A → Loaded A
  failed : Error → Loaded A

-- `if err != nil { return nil, err }`
infixl 5 ◌>>=◌
abbrev pub ◌>>=◌ : {A B : Type 0} → Loaded A → (A → Loaded B) → Loaded B
m >>= next = elim m [ failed e ↦ failed e | loaded a ↦ next a ]

-- An environment variable that has to be set.
abbrev pub required : Text → Error → Loaded Text
required [] e = failed e
required (c ∷ cs) e = loaded (c ∷ cs)

-- What a call returned, or the error that the code makes of the call's.
abbrev pub returned : {A : Type 0} → Error → Option A → Loaded A
returned e result = elim result [ some a ↦ loaded a | none ↦ failed e ]

-- What the process finds around it: `os.Getenv` (an unset variable reads as the empty text),
-- `os.ReadFile`, and `yaml.Unmarshal` of the list of nodes.
pub record Surroundings : Type 0 where
  pub getenv : Text → Text
  pub read_file : Text → Option Text
  pub unmarshal_nodes : Text → Option (List Node)

-- The value of `strconv.ParseBool`, which is false beside an error.
unfoldable pub parse_bool : Text → Bool
unfolding text_eq
parse_bool s =
    elem s (bytes "1" ∷ bytes "t" ∷ bytes "T" ∷ bytes "true" ∷ bytes "TRUE" ∷ bytes "True" ∷ [])

module _ (around : Surroundings) where
  unfoldable pub load_nodes : Text → Loaded (List Node)
  load_nodes path = do
    contents ← returned read_nodes_config (around.read_file path)
    returned parse_nodes_config (around.unmarshal_nodes contents)

  abbrev pub default_to : Text → Text → Text
  default_to fallback [] = fallback
  default_to fallback (c ∷ cs) = c ∷ cs

  unfoldable pub load : Text → Loaded Config
  unfolding load_nodes
  load path = do
    app_name ← required (around.getenv (bytes "APP_NAME")) app_name_required
    db_name ← required (around.getenv (bytes "DB_NAME")) db_name_required
    let namespace = default_to (bytes "default") (around.getenv (bytes "NAMESPACE"))
    let admin_user = default_to (bytes "admin") (around.getenv (bytes "ADMIN_USER"))
    let reset_spock = parse_bool (around.getenv (bytes "RESET_SPOCK"))
    nodes ← load_nodes path
    loaded (record {
      app_name = app_name;
      db_name = db_name;
      namespace = namespace;
      admin_user = admin_user;
      pgedge_user = bytes "pgedge";
      reset_spock = reset_spock;
      nodes = nodes;
    })
