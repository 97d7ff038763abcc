-- ===== src/Config/Valid.antt =====
-- What holds of the configuration that `Load` (internal/config/config.go) returns.
use mathlib.Core.List.{Memᴰ}
use pgedge_helm.Base.{
  ◌≡◌, ◌≢◌, ◌⊎◌, ◌↔◌, refl, subst, inl, inr, true, Bool-cases, List, [], ◌∷◌, elem, ◌==◌, ==_iff,
  some, Option-cases, arith,
}
use pgedge_helm.Base.Text.{Text, bytes, text_key}
use pgedge_helm.Config.{
  Node, Config, Surroundings, loaded, default_to, parse_bool, load_nodes, load,
}

-- A text of the environment, or what stands for it where it is not set.
abbrev pub IsOrDefault : (read fallback t : Text) → Type 0
IsOrDefault read fallback t = ((read ≡ []) × (t ≡ fallback)) ⊎ ((read ≢ []) × (t ≡ read))

-- What `strconv.ParseBool` takes for true.
abbrev pub spellings : List Text
spellings = bytes "1" ∷ bytes "t" ∷ bytes "T" ∷ bytes "true" ∷ bytes "TRUE" ∷ bytes "True" ∷ []

-- The configuration, field by field.
pub record IsComplete (around : Surroundings) (path : Text) (cfg : Config) : Type 0 where
  pub app_name_read : around.getenv (bytes "APP_NAME") ≡ cfg.app_name
  pub db_name_read : around.getenv (bytes "DB_NAME") ≡ cfg.db_name
  pub app_name_set : cfg.app_name ≢ []
  pub db_name_set : cfg.db_name ≢ []
  pub namespace_read :
      IsOrDefault (around.getenv (bytes "NAMESPACE")) (bytes "default") cfg.namespace
  pub admin_user_read :
      IsOrDefault (around.getenv (bytes "ADMIN_USER")) (bytes "admin") cfg.admin_user
  pub pgedge_user_fixed : cfg.pgedge_user ≡ bytes "pgedge"
  pub reset_spock_read :
      (cfg.reset_spock ≡ true) ↔ Memᴰ (around.getenv (bytes "RESET_SPOCK")) spellings
  pub contents : Text
  pub file_read : around.read_file path ≡ some contents
  pub nodes_parsed : around.unmarshal_nodes contents ≡ some cfg.nodes

default_to-IsOrDefault :
    (around : Surroundings) (fallback read : Text)
    → IsOrDefault read fallback (default_to around fallback read)
default_to-IsOrDefault around fallback [] = inl (refl, refl)
default_to-IsOrDefault around fallback (c ∷ cs) = inr (λ e. absurd (ground arith), refl)

elem-Mem : (t : Text) (ts : List Text) → elem t ts ≡ true → Memᴰ t ts
elem-Mem t [] e = absurd (ground arith)
elem-Mem t (x ∷ xs) e = elim (Bool-cases (t == x)) [
  | inl same ↦ Memᴰ.head (ground (arith, ==_iff t x))
  | inr other ↦ Memᴰ.tail (elem-Mem t xs (ground arith))
]

Mem-elem : (t : Text) (ts : List Text) → Memᴰ t ts → elem t ts ≡ true
Mem-elem t [] m = elim m [ ]
Mem-elem t (x ∷ xs) (Memᴰ.head e) = ground (arith, ==_iff t x)
Mem-elem t (x ∷ xs) (Memᴰ.tail m) = ground (arith, Mem-elem t xs m)

parse_bool_iff : (t : Text) → (parse_bool t ≡ true) ↔ Memᴰ t spellings
unfolding parse_bool
parse_bool_iff t = (elem-Mem t spellings, Mem-elem t spellings)

module _ (around : Surroundings) where
  load_nodes-parsed :
      (path : Text) (nodes : List Node)
      → load_nodes around path ≡ loaded nodes
      → (contents : Text) × (around.read_file path ≡ some contents)
        × (around.unmarshal_nodes contents ≡ some nodes)
  unfolding load_nodes
  load_nodes-parsed path nodes e = elim (Option-cases (around.read_file path)) [
    | inl missing ↦ absurd (ground arith)
    | inr (contents, read) ↦ elim (Option-cases (around.unmarshal_nodes contents)) [
      | inl bad ↦ absurd (ground arith)
      | inr (parsed, made) ↦ (contents, read, ground arith)
    ]
  ]

  abbrev made_of : List Node → Config
  made_of nodes = record {
    app_name = around.getenv (bytes "APP_NAME");
    db_name = around.getenv (bytes "DB_NAME");
    namespace = default_to around (bytes "default") (around.getenv (bytes "NAMESPACE"));
    admin_user = default_to around (bytes "admin") (around.getenv (bytes "ADMIN_USER"));
    pgedge_user = bytes "pgedge";
    reset_spock = parse_bool (around.getenv (bytes "RESET_SPOCK"));
    nodes = nodes;
  }

  load-made :
      (path : Text) (cfg : Config)
      → load around path ≡ loaded cfg
      → (around.getenv (bytes "APP_NAME") ≢ [])
        × (around.getenv (bytes "DB_NAME") ≢ [])
        × (load_nodes around path ≡ loaded cfg.nodes)
        × (made_of cfg.nodes ≡ cfg)
  unfolding load
  load-made path cfg e =
      (λ h. absurd (ground arith), λ h. absurd (ground arith), ground arith, ground arith)

  -- A configuration that `Load` returns has APP_NAME and DB_NAME of the environment, neither empty,
  -- NAMESPACE and ADMIN_USER or, where they are not set, `default` and `admin`, the user pgedge, the
  -- nodes of the file, and is to reset Spock exactly where RESET_SPOCK is a spelling of true.
  pub load-IsComplete :
      (path : Text) (cfg : Config) → load around path ≡ loaded cfg → IsComplete around path cfg
  load-IsComplete path cfg e =
      let (app_name_set, db_name_set, nodes_loaded, made) = load-made path cfg e in
      let (contents, read, parsed) = load_nodes-parsed path cfg.nodes nodes_loaded in
      subst (IsComplete around path) made (record {
        app_name_read = refl;
        db_name_read = refl;
        app_name_set = app_name_set;
        db_name_set = db_name_set;
        namespace_read = default_to-IsOrDefault around (bytes "default") _;
        admin_user_read = default_to-IsOrDefault around (bytes "admin") _;
        pgedge_user_fixed = refl;
        reset_spock_read = parse_bool_iff (around.getenv (bytes "RESET_SPOCK"));
        contents = contents;
        file_read = read;
        nodes_parsed = parsed;
      })
