-- ===== src/Process/Startup.antt =====
-- `main` of cmd/locket/main.go, from the configuration to the end of the group of its runners.
pub mod Outcomes
pub mod Endings
use Prim.Native.String.{◌++◌}
use locket.Prelude.{
  ℕ, String, true, false, Option, none, some, List, [], ◌∷◌, ◌==◌, if◌then◌else◌, Result, ok, err,
  pure, raise, ◌>>=◌, ◌>>◌,
}
use locket.Prelude.Int64.{ℤ}
use locket.Consul.Registration.{Registration}
use locket.Process.Config.{LocketConfig, new_locket_config}
use locket.Process.Host.{
  Host, Runner, Member, Call, Stop, Main, call, check, answer, fatal, exited, debug_server,
  grpc_server, burglar, metrics_notifier, registration_runner, new_metron_client, run_emitter,
  dropsonde, open_database, set_max_idle_conns, set_max_open_conns, ping_database, create_table,
  close_database, new_consul, invoke_group,
}
use locket.Process.Connection.{append_extra_connection_string_param}

-- In nanoseconds.
abbrev pub retry_interval : ℕ
retry_interval = 5000000000

abbrev pub metrics_interval : ℕ
metrics_interval = 10000000000

abbrev pub registration : Registration
registration = record { id = ""; name = "locket"; check_ttl = some "20s"; checks = 0 }

abbrev pub initialize_registration_runner : ℕ → Runner
initialize_registration_runner port = registration_runner registration port retry_interval

abbrev members : LocketConfig → ℕ → List Member
members config port =
    record { name = "server"; runner = grpc_server config.listen_address }
    ∷ record { name = "burglar"; runner = burglar retry_interval }
    ∷ record { name = "metrics-notifier"; runner = metrics_notifier metrics_interval }
    ∷ record { name = "registration-runner"; runner = initialize_registration_runner port }
    ∷ []

-- The members of the group, the debug server first.
unfoldable pub group_members : LocketConfig → ℕ → List Member
group_members config port =
    if config.debug_address == ""
    then members config port
    else record { name = "debug-server"; runner = debug_server config.debug_address }
      ∷ members config port

-- A deferred close runs when `main` returns or panics, and not after os.Exit.
pub close_after : Result Stop (Unit {0}) → Main (Unit {0})
close_after (ok a) calls = (ok a, close_database ∷ calls)
close_after (err (fatal event e)) calls = (err (fatal event e), close_database ∷ calls)
close_after (err (exited code)) calls = (err (exited code), calls)

pub with_close : Main (Unit {0}) → Main (Unit {0})
unfolding close_after
with_close m calls = close_after (m calls).0 (m calls).1

pub exit_with : Option String → Main (Unit {0})
exit_with none = pure tt
exit_with (some e) = raise (exited 1)

module _ (host : Host) where
  pub loaded : LocketConfig × Option String → Main LocketConfig
  loaded (config, none) = pure config
  loaded (config, some e) = raise (fatal "invalid-config-file" (some e))

  -- An error of dropsonde is only logged.
  initialize_dropsonde : LocketConfig → Main (Unit {0})
  initialize_dropsonde config =
      call (dropsonde ("localhost:" ++ host.print_int config.dropsonde_port))

  pub initialize_metron : LocketConfig → Main (Unit {0})
  unfolding initialize_dropsonde exit_with
  initialize_metron config = do
    call (new_metron_client config.loggregator_config)
    exit_with (host.new_ingress_client config.loggregator_config)
    if config.loggregator_config.use_v2_api then call run_emitter else initialize_dropsonde config

  -- From the limits of the connection pool to the lock table.
  prepare_database : LocketConfig → Main (Unit {0})
  prepare_database config = do
    call (set_max_idle_conns config.max_open_database_connections)
    call (set_max_open_conns config.max_open_database_connections)
    call ping_database
    check "sql-failed-to-connect" host.ping
    call create_table
    check "failed-to-create-lock-table" host.create_lock_table

  -- The port of the listen address, after the consul client and before the TLS configuration.
  prepare_network : LocketConfig → Main ℕ
  prepare_network config = do
    call (new_consul config.consul_cluster)
    check "new-consul-client-failed" (host.new_consul_client config.consul_cluster)
    (_, port) ← answer "failed-invalid-listen-address" (host.split_host_port config.listen_address)
    number ← answer "failed-invalid-listen-port" (host.lookup_port port)
    check "invalid-tls-config" (host.new_tls_config config.cert_file config.key_file config.ca_file)
    pure number

  run_group : List Member → Main (Unit {0})
  unfolding exit_with
  run_group group = do call (invoke_group group); exit_with (host.group_exit group)

  pub serve : LocketConfig → Main (Unit {0})
  unfolding prepare_database prepare_network group_members run_group
  serve config = do
    prepare_database config
    port ← prepare_network config
    run_group (group_members config port)

  -- From the connection string on, with the metron client made.
  pub connect : LocketConfig → Main (Unit {0})
  connect config = do
    connection_string ←
        append_extra_connection_string_param host config.database_driver
          config.database_connection_string config.sql_ca_cert_file
    call (open_database config.database_driver connection_string)
    check "failed-to-open-sql" (host.open_sql config.database_driver connection_string)
    with_close (serve config)

  unfoldable pub main : String → Main (Unit {0})
  unfolding loaded initialize_metron connect serve with_close
  main config_file_path = do
    config ←
        loaded (new_locket_config host.open_file host.decode host.default_lager config_file_path)
    initialize_metron config
    connect config
