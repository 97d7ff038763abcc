-- ===== src/Connections.antt =====
-- internal/pg/pg.go: how the job connects to a node, and waits until it can.
pub mod Ends
pub mod Success
mod Tests
use pgedge_helm.Base.{
  ℕ, zero, suc, Bool, true, List, [], ◌∷◌, ◌++◌, Option, none, some, if◌then◌else◌,
}
use pgedge_helm.Base.Text.{Text, bytes}
use pgedge_helm.Base.Decimal.{decimal}
use pgedge_helm.Io.{Result, ok, err, Io, ◌>>=◌, pure, wrapped, Waited, came_up, gave_up}
use pgedge_helm.Resource.{Error, message, context}

-- A key pair that was loaded, as a handle.
abbrev pub Certificate : Type 0
Certificate = ℕ

pub record TlsConfig : Type 0 where
  pub certificates : List Certificate
  pub insecure_skip_verify : Bool
  pub min_version : ℕ

-- `pgx.ConnConfig`: the string it was parsed from, and the field that the code sets.
pub record ConnConfig : Type 0 where
  pub conn_string : Text
  pub tls_config : Option TlsConfig

-- `pgxpool.Config`
pub record PoolConfig : Type 0 where
  pub pool_string : Text
  pub conn_config : ConnConfig

-- crypto/tls and pgx, over a state `S`. Connections and pools are handles.
pub record Pgx (S : Type 0) : Type 0 where
  pub load_key_pair : (cert_path key_path : Text) → Io S Certificate
  pub parse_config : Text → Io S ConnConfig
  pub parse_pool_config : Text → Io S PoolConfig
  pub connect_config : ConnConfig → Io S ℕ
  pub close : ℕ → S → S
  pub new_pool : PoolConfig → Io S ℕ
  pub close_pool : ℕ → S → S
  -- `ctx.Err()`, where the context has ended
  pub ctx_err : S → Option Error
  -- `select` between `ctx.Done()` and `time.After`
  pub wait : (seconds : ℕ) → S → S

abbrev pub default_port : ℕ
default_port = 5432

abbrev pub connect_timeout : ℕ
connect_timeout = 3

abbrev pub default_cert_path : Text
default_cert_path = bytes "/certificates/admin/tls.crt"

abbrev pub default_key_path : Text
default_key_path = bytes "/certificates/admin/tls.key"

-- `tls.VersionTLS12`
abbrev pub version_tls12 : ℕ
version_tls12 = 771

-- `internalHostname` if it is set.
unfoldable pub connect_host : (hostname internal_hostname : Text) → Text
connect_host hostname [] = hostname
connect_host hostname (c ∷ cs) = c ∷ cs

abbrev pub conn_str : (host db_name user : Text) → Text
conn_str host db_name user =
    bytes "host="
    ++ (host
        ++ (bytes " port="
            ++ (decimal default_port
                ++ (bytes " dbname="
                    ++ (db_name
                        ++ (bytes " user="
                            ++ (user
                                ++ (bytes " sslmode=require connect_timeout="
                                    ++ decimal connect_timeout))))))))

module _ {S : Type 0} (pgx : Pgx S) where
  unfoldable pub build_conn_config : (host db_name user cert_path key_path : Text) → Io S ConnConfig
  build_conn_config host db_name user cert_path key_path = do
    cert ← wrapped (bytes "load TLS client cert") (pgx.load_key_pair cert_path key_path)
    cfg ← wrapped (bytes "parse connection string") (pgx.parse_config (conn_str host db_name user))
    pure (record cfg {
      tls_config = some (record {
        certificates = cert ∷ [];
        insecure_skip_verify = true;
        min_version = version_tls12;
      });
    })

  unfoldable pub connect : (host db_name user : Text) → Io S ℕ
  connect host db_name user = do
    cfg ← build_conn_config host db_name user default_cert_path default_key_path
    pgx.connect_config cfg

  unfoldable pub build_pool_config :
      (hostname internal_hostname db_name user cert_path key_path : Text) → Io S PoolConfig
  build_pool_config hostname internal_hostname db_name user cert_path key_path = do
    conn_cfg ←
        build_conn_config (connect_host hostname internal_hostname) db_name user cert_path key_path
    pool_cfg ← wrapped (bytes "parse pool config") (pgx.parse_pool_config conn_cfg.conn_string)
    pure (record pool_cfg { conn_config = conn_cfg })

  unfoldable pub connect_pool : (hostname internal_hostname db_name user : Text) → Io S ℕ
  connect_pool hostname internal_hostname db_name user = do
    pool_cfg ←
        build_pool_config hostname internal_hostname db_name user default_cert_path default_key_path
    pgx.new_pool pool_cfg

  -- The loop runs on fuel, and is `none` without.
  unfoldable pub wait_ready :
      ℕ → (hostname internal_hostname db_name user : Text) → S → Option (Waited × S)
  wait_ready zero hostname internal_hostname db_name user s = none
  wait_ready (suc fuel) hostname internal_hostname db_name user s =
      let (result, s1) = connect (connect_host hostname internal_hostname) db_name user s in
      let s2 = pgx.wait 3 s1 in
      let rest = wait_ready fuel hostname internal_hostname db_name user s2 in
      elim result [
        | ok conn ↦ some (came_up, pgx.close conn s1)
        | err _ ↦ elim (pgx.ctx_err s2) [
          | some e ↦ some (gave_up (context (bytes "timed out waiting for " ++ hostname) e), s2)
          | none ↦ rest
        ]
      ]
