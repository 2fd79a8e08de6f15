-- ===== src/Process/Host.antt =====
-- What cmd/locket/main.go calls that is outside this repository, with the answers that `main` gets, and
-- the calls that change something.
use locket.Prelude.{ℕ, String, Bool, Option, none, some, List, ◌∷◌, Result, ok, err, Exec}
use locket.Prelude.Int64.{ℤ}
use locket.Consul.Registration.{Registration}
use locket.Process.Config.{LocketConfig, Loggregator}

-- The configuration of a MySQL connection: what `main` assigns of it, and the rest. Times are in
-- nanoseconds.
pub record Dsn : Type 0 where
  pub tls_config : String
  pub timeout : ℕ
  pub read_timeout : ℕ
  pub write_timeout : ℕ
  pub other : String

-- The runners that `main` passes to the group.
pub data Runner : Type 0 where
  debug_server grpc_server : String → Runner
  burglar metrics_notifier : ℕ → Runner
  registration_runner : Registration → (port retry_interval : ℕ) → Runner

pub record Member : Type 0 where
  pub name : String
  pub runner : Runner

-- An error is its text; nil is `none`.
pub record Host : Type 0 where
  pub open_file : String → Result String String
  pub decode : String → LocketConfig → LocketConfig × Option String
  pub default_lager : String
  pub new_ingress_client : Loggregator → Option String
  pub print_int : ℤ → String
  pub parse_dsn : String → Result String Dsn
  pub format_dsn : Dsn → String
  pub read_file : String → Result String String
  pub append_certs : String → Bool
  pub parse_url : String → Result String String
  pub open_sql : (driver connection_string : String) → Option String
  pub ping : Option String
  pub create_lock_table : Option String
  pub new_consul_client : String → Option String
  pub split_host_port : String → Result String (String × String)
  pub lookup_port : String → Result String ℕ
  pub new_tls_config : (cert_file key_file ca_file : String) → Option String
  -- the error with which the group exits
  pub group_exit : List Member → Option String

pub data Call : Type 0 where
  new_metron_client : Loggregator → Call
  run_emitter : Call
  dropsonde : String → Call
  -- a name, and the certificates that are its roots
  register_tls_config : String → String → Call
  open_database : String → String → Call
  set_max_idle_conns set_max_open_conns : ℤ → Call
  ping_database create_table close_database : Call
  new_consul : String → Call
  invoke_group : List Member → Call

-- `fatal` is logger.Fatal, which panics with the error that it is given; `exited` is os.Exit.
pub data Stop : Type 0 where
  fatal : String → Option String → Stop
  exited : ℕ → Stop

-- The calls so far, newest first.
abbrev pub Main : Type 0 → Type 0
Main A = Exec Stop (List Call) A

abbrev pub call : Call → Main (Unit {0})
call c calls = (ok tt, c ∷ calls)

-- A call whose error is fatal.
abbrev pub check : String → Option String → Main (Unit {0})
check event none calls = (ok tt, calls)
check event (some e) calls = (err (fatal event (some e)), calls)

abbrev pub answer : {A : Type 0} → String → Result String A → Main A
answer event (ok a) calls = (ok a, calls)
answer event (err e) calls = (err (fatal event (some e)), calls)
