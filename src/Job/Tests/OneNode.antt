-- ===== src/Job/Tests/OneNode.antt =====
-- A site with one node that is restored from a backup. The state is the seconds to the deadline, if
-- there is one, and the statements that ran.
use pgedge_helm.Base.{
  ℕ, zero, suc, ◌-◌, ◌≤◌, ◌*◌, ◌/◌, ◌≡◌, ◌≢◌, refl, true, List, [], ◌∷◌, ◌++◌, Option, some, none,
  arith, if◌then◌else◌, ◌==◌,
}
use pgedge_helm.Base.Int.{ℤ, pos, negsuc}
use pgedge_helm.Base.Decimal.{decimal}
use pgedge_helm.Base.Text.{bytes, text_key}
use pgedge_helm.Config.{Node, Surroundings}
use pgedge_helm.Io.{ok, HasDeadline}
use pgedge_helm.Resource.{Error, message}
use pgedge_helm.Readiness.{healthy_phase}
use pgedge_helm.Spock.World.{Driver, Statement, answer}
use pgedge_helm.Job.{Outside}
use pgedge_helm.Job.Keeps.{KeepsCalls, Keeps}

abbrev pub Site : Type 0
Site = Option ℕ × List Statement

abbrev pub restored_node : Node
restored_node = record {
  name = bytes "n1";
  hostname = bytes "n1";
  internal_hostname = [];
  bootstrap = record { mode = bytes "cnpg"; source_node = [] };
}

abbrev pub settings : Surroundings
settings = record {
  getenv = λ name.
      if name == bytes "INIT_SPOCK_TIMEOUT"
      then decimal 60
      else if name == bytes "RESET_SPOCK"
      then []
      else bytes "app";
  read_file = λ path. some (bytes "n1");
  unmarshal_nodes = λ contents. some (restored_node ∷ []);
}

abbrev pub deadline_exceeded : Site → Option Error
deadline_exceeded (none, log) = none
deadline_exceeded (some zero, log) = some (message (bytes "context deadline exceeded"))
deadline_exceeded (some (suc n), log) = none

abbrev pub pass : ℕ → Site → Site
pass seconds (none, log) = (none, log)
pass seconds (some left, log) = (some (left - seconds), log)

-- The earlier of two deadlines.
abbrev pub at_once : ℤ → Site → Site
at_once (pos ns) (none, log) = (some (ns / 1000000000), log)
at_once (pos ns) (some left, log) = (some (left - (left - ns / 1000000000)), log)
at_once (negsuc ns) (left, log) = (some 0, log)

abbrev pub databases : Driver Site
databases = record {
  query_bool = λ c q d. (answer true, d);
  query_rows = λ c q d. (answer [], d);
  query_sets = λ c d. (answer (record { scanned = []; rows_err = none }), d);
  query_set_tables = λ c d. (answer (record { scanned = []; rows_err = none }), d);
  query_text = λ c q d. (answer (bytes "0/1"), d);
  query_time = λ c q d. (answer 7, d);
  exec = λ c s d. (answer tt, (d.0, d.1 ++ s ∷ []));
  begin = λ c d. (answer 0, d);
  tx_exec = λ t s d. (answer tt, (d.0, d.1 ++ s ∷ []));
  tx_bool = λ t q d. (answer true, d);
  tx_text = λ t q d. (answer (bytes "0/1"), d);
  commit = λ t d. (answer tt, d);
  rollback = λ t d. d;
  ctx_err = deadline_exceeded;
  sleep = λ n d. d;
}

abbrev pub site : Outside Site
site = record {
  around = settings;
  kubernetes = record {
    in_cluster_config = λ d. (ok 0, d);
    new_for_config = λ c d. (ok c, d);
    list = λ client gvr namespace selector d.
        (ok (record { name = bytes "n1"; phase = healthy_phase } ∷ []), d);
    ctx_err = deadline_exceeded;
    wait = pass;
  };
  pgx = record {
    load_key_pair = λ cert key d. (ok 0, d);
    parse_config = λ s d. (ok (record { conn_string = s; tls_config = none }), d);
    parse_pool_config = λ s d. (
      ok (record { pool_string = s; conn_config = record { conn_string = s; tls_config = none } }),
      d,
    );
    connect_config = λ cfg d. (ok 1, d);
    close = λ conn d. d;
    new_pool = λ cfg d. (ok 2, d);
    close_pool = λ pool d. d;
    ctx_err = deadline_exceeded;
    wait = pass;
  };
  driver = databases;
  with_timeout = at_once;
  cancel = λ d. d;
}

pub site-KeepsCalls : (P : Site → Type 0) → KeepsCalls site P
site-KeepsCalls P = record {
  keeps_config = λ d h. h;
  keeps_client = λ c d h. h;
  keeps_list = λ client gvr namespace selector d h. h;
  keeps_key_pair = λ cert key d h. h;
  keeps_parse = λ s d h. h;
  keeps_parse_pool = λ s d h. h;
  keeps_connect = λ c d h. h;
  keeps_close = λ conn d h. h;
  keeps_pool = λ c d h. h;
  keeps_close_pool = λ pool d h. h;
}

-- Nothing ran yet.
abbrev pub IsUntouched : Site → Type 0
IsUntouched d = d.1 ≡ []

pass-IsUntouched : (n : ℕ) (d : Site) → IsUntouched d → IsUntouched (pass n d)
pass-IsUntouched n (none, log) h = h
pass-IsUntouched n (some left, log) h = h

at_once-IsUntouched : (t : ℤ) (d : Site) → IsUntouched d → IsUntouched (at_once t d)
at_once-IsUntouched (pos ns) (none, log) h = h
at_once-IsUntouched (pos ns) (some left, log) h = h
at_once-IsUntouched (negsuc ns) (left, log) h = h

pub site-Keeps : Keeps site IsUntouched
site-Keeps = record {
  calls = site-KeepsCalls IsUntouched;
  keeps_wait = pass-IsUntouched;
  keeps_pause = pass-IsUntouched;
  keeps_timeout = at_once-IsUntouched;
  keeps_cancel = λ d h. h;
}

abbrev pub Within : ℕ → Site → Type 0
Within n d = (m : ℕ) × (d.0 ≡ some m) × (m ≤ n)

pass_ticks : (seconds n : ℕ) (d : Site) → Within n d → Within (n - seconds) (pass seconds d)
pass_ticks seconds n (none, log) (m, e, h) = absurd (ground arith)
pass_ticks seconds n (some left, log) (m, e, h) = (left - seconds, refl, ground arith)

pass_keeps : (seconds n : ℕ) (d : Site) → Within n d → Within n (pass seconds d)
pass_keeps seconds n (none, log) (m, e, h) = absurd (ground arith)
pass_keeps seconds n (some left, log) (m, e, h) = (left - seconds, refl, ground arith)

ends_at_zero : (d : Site) → Within 0 d → deadline_exceeded d ≢ none
ends_at_zero (none, log) (m, e, h) k = absurd (ground arith)
ends_at_zero (some zero, log) (m, e, h) k = absurd (ground arith)
ends_at_zero (some (suc left), log) (m, e, h) k = absurd (ground arith)

at_once_keeps : (n : ℕ) (t : ℤ) (d : Site) → Within n d → Within n (at_once t d)
at_once_keeps n (pos ns) (none, log) (m, e, h) = absurd (ground arith)
at_once_keeps n (pos ns) (some left, log) (m, e, h) =
    (left - (left - ns / 1000000000), refl, ground arith)
at_once_keeps n (negsuc ns) (left, log) (m, e, h) = (0, refl, omega arith)

pub at_once_sets : (m : ℕ) (d : Site) → Within m (at_once (pos (m * 1000000000)) d)
at_once_sets m (none, log) = (m * 1000000000 / 1000000000, refl, omega arith)
at_once_sets m (some left, log) = (left - (left - m * 1000000000 / 1000000000), refl, omega arith)

pub site-HasDeadline : HasDeadline deadline_exceeded pass Within
site-HasDeadline = record { wait_ticks = pass_ticks; has_ended = ends_at_zero }

pub site-Keeps-Within : (n : ℕ) → Keeps site (Within n)
site-Keeps-Within n = record {
  calls = site-KeepsCalls (Within n);
  keeps_wait = λ seconds. pass_keeps seconds n;
  keeps_pause = λ seconds. pass_keeps seconds n;
  keeps_timeout = at_once_keeps n;
  keeps_cancel = λ d h. h;
}
