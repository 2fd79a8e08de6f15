-- ===== src/Examples/Main.antt =====
-- The process of the service: a host that answers well, one whose group fails, and a database that is
-- gone while the process starts.
use locket.Prelude.{ℕ, ◌≡◌, refl, true, false, none, some, [], ok, returned}
use locket.Handlers.{lock_request, Server, lock, validate_type}
use locket.Handlers.Exclusion.{handle}
use locket.Process.Config.{new_locket_config}
use locket.Process.Host.{Host}
use locket.Process.Connection.{append_extra_connection_string_param}
use locket.Process.Connection.Answers.{Connects, append_extra-Connects}
use locket.Process.Startup.{main}
use locket.Process.Startup.Endings.{Ends, main-Ends}
use locket.Process.Exit.{
  Process, initial, Step, Reach, here, next, start_waiter, running, signalled,
}
use locket.Process.Exit.Interrupts.{
  IsSound, reports, interrupts_once, early_exit_is_lost, late_exit_is_heard,
}
use locket.Process.Listener
use locket.Process.Listener.Stopping
use locket.Process.Listener.Stopping.{stops_once}
use locket.Examples.Service.{broken, before_exit, bob_locks}

abbrev host : Host
host = record {
  open_file = λ path. ok "{}";
  decode = λ text config. (
    record config {
      database_connection_string = "locket:secret@tcp(10.0.0.5)/locket";
      sql_ca_cert_file = "ca.crt";
      listen_address = "0.0.0.0:8891";
    },
    none,
  );
  default_lager = "info";
  new_ingress_client = λ c. none;
  print_int = λ i. "3457";
  parse_dsn = λ s.
      ok (record { tls_config = ""; timeout = 0; read_timeout = 0; write_timeout = 0; other = s });
  format_dsn = λ dsn. dsn.other;
  read_file = λ path. ok "certificates";
  append_certs = λ certs. true;
  parse_url = λ s. ok s;
  open_sql = λ driver s. none;
  ping = none;
  create_lock_table = none;
  new_consul_client = λ url. none;
  split_host_port = λ address. ok ("0.0.0.0", "8891");
  lookup_port = λ text. ok 8891;
  new_tls_config = λ cert key ca. none;
  group_exit = λ group. none;
}

main-Ends_example :
    Ends host "locket.json" (main host "locket.json" []).0 (main host "locket.json" []).1
main-Ends_example = main-Ends host "locket.json"

main_returns : (main host "locket.json" []).0 ≡ ok tt
unfolding main new_locket_config append_extra_connection_string_param
main_returns = refl

append_extra-Connects_example :
    Connects host "mysql" "locket:secret@tcp(10.0.0.5)/locket" "ca.crt" []
      (append_extra_connection_string_param host "mysql" "locket:secret@tcp(10.0.0.5)/locket"
        "ca.crt" []).0
      (append_extra_connection_string_param host "mysql" "locket:secret@tcp(10.0.0.5)/locket"
        "ca.crt" []).1
append_extra-Connects_example =
    append_extra-Connects host "mysql" "locket:secret@tcp(10.0.0.5)/locket" "ca.crt" []

abbrev fresh : Server broken
fresh = (initial before_exit).server

early_reported : reports (lock_request bob_locks) fresh ≡ true
unfolding lock validate_type
early_reported = refl

early_answered : handle (lock_request bob_locks) fresh ≡ returned fresh
unfolding handle validate_type
early_answered = refl

early_exit_is_lost_example :
    (p : Process broken) × Reach (initial before_exit) p
    × (p.waiter ≡ running)
    × (p.server ≡ record fresh { receiver_waits = true })
    × (p.server.exit_requested ≡ false)
    × ((q : Process broken) → Step p q → q.interrupts ≡ 0)
early_exit_is_lost_example =
    early_exit_is_lost before_exit fresh (lock_request bob_locks) early_reported early_answered

abbrev receiving : Process broken
receiving = record (initial before_exit) { server = before_exit; waiter = running }

abbrev asked : Server broken
asked = record before_exit { receiver_waits = false; exit_requested = true }

late_reported : reports (lock_request bob_locks) before_exit ≡ true
unfolding lock validate_type
late_reported = refl

late_answered : handle (lock_request bob_locks) before_exit ≡ returned asked
unfolding handle validate_type
late_answered = refl

receives : Reach (initial before_exit) receiving
receives = next here (start_waiter refl refl)

late_exit_is_heard_example :
    Step receiving (record receiving { server = asked })
    × Step
        (record receiving { server = asked })
        (record receiving { server = asked; waiter = signalled; interrupts = 1 })
    × Reach
        (initial before_exit)
        (record receiving { server = asked; waiter = signalled; interrupts = 1 })
    × (receiving.interrupts ≡ 0)
    × (◌≡◌ {A = ℕ} 1 1)
late_exit_is_heard_example =
    late_exit_is_heard before_exit asked (lock_request bob_locks) receives refl refl late_reported
      late_answered

interrupts_once_example : IsSound receiving
interrupts_once_example = interrupts_once before_exit receives

-- A signal, and then what Serve returns, which nobody receives.
stops_once_example : Stopping.IsSound (record Listener.initial {
  phase = Listener.stopping Listener.signal;
  goroutine = Listener.sending (some "stopped");
  ready_closes = 1;
  cause = some Listener.signal;
})
stops_once_example = stops_once (
    Listener.next
      (Listener.next
        (Listener.next (Listener.next Listener.here (Listener.listens refl))
          (Listener.close_ready refl))
        (Listener.signalled refl))
      (Listener.serve_returns (some "stopped") refl))
