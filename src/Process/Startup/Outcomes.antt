-- ===== src/Process/Startup/Outcomes.antt =====
-- The parts of `main`: what each has started, and what it has left open.
use locket.Prelude.{
  ℕ, suc, String, ◌≡◌, inl, inr, Bool, false, ◌||◌, Option, none, some, List, [], ◌∷◌, is_none,
  Result, ok, err, Result-cases, Option-cases, arith, ◌==◌, ◌++◌, if◌then◌else◌, Bool-cases,
}
use locket.Process.Config.{LocketConfig, new_locket_config}
use locket.Process.Host.{
  Host, Member, Call, Stop, fatal, open_database, set_max_idle_conns, set_max_open_conns,
  ping_database, create_table, close_database, new_consul, invoke_group, debug_server, grpc_server,
  burglar, metrics_notifier, registration_runner,
}
use locket.Process.Connection.{append_extra_connection_string_param}
use locket.Process.Connection.Answers.{
  Connects, mysql, postgres, other, refused, unchanged, registered,
}
use locket.Process.Startup.{serve, group_members, exit_with, initialize_metron}

abbrev pub when : {A : Type 0} → Option String → Option A → Option A
when none x = x
when (some e) x = none

abbrev pub after_ok : {E A B : Type 0} → Result E A → (A → Option B) → Option B
after_ok (ok a) f = f a
after_ok (err e) f = none

-- The group that `invoke_group` was called with; how often the pool was closed; whether it was opened.
abbrev pub invoked : List Call → Option (List Member)
invoked [] = none
invoked (invoke_group group ∷ calls) = some group
invoked (_ ∷ calls) = invoked calls

abbrev pub closes : List Call → ℕ
closes [] = 0
closes (close_database ∷ calls) = suc (closes calls)
closes (_ ∷ calls) = closes calls

abbrev pub opens : Host → List Call → Bool
opens host [] = false
opens host (open_database driver s ∷ calls) = is_none (host.open_sql driver s) || opens host calls
opens host (_ ∷ calls) = opens host calls

-- The group, the debug server first where it has an address.
abbrev pub debug_members : LocketConfig → List Member
debug_members config =
    if config.debug_address == ""
    then []
    else record { name = "debug-server"; runner = debug_server config.debug_address } ∷ []

abbrev pub expected_group : LocketConfig → ℕ → List Member
expected_group config port =
    debug_members config
    ++ (record { name = "server"; runner = grpc_server config.listen_address }
        ∷ record { name = "burglar"; runner = burglar 5_000_000_000 }
        ∷ record { name = "metrics-notifier"; runner = metrics_notifier 10_000_000_000 }
        ∷ record {
          name = "registration-runner";
          runner =
              registration_runner
                (record { id = ""; name = "locket"; check_ttl = some "20s"; checks = 0 }) port
                5_000_000_000;
        }
        ∷ [])

group_members-expected :
    (config : LocketConfig) (port : ℕ) → group_members config port ≡ expected_group config port
unfolding group_members
group_members-expected config port = elim (Bool-cases (config.debug_address == "")) [
  | inl e ↦ rw e
  | inr e ↦ rw e
]

module _ (host : Host) where
  -- The group that `main` starts, if every answer that it waits for before is without an error.
  pub ready : LocketConfig → Option (List Member)
  ready config = when host.ping (
      when host.create_lock_table (
        when (host.new_consul_client config.consul_cluster) (
          after_ok (host.split_host_port config.listen_address) λ (_, text).
            after_ok (host.lookup_port text) λ port.
              when (host.new_tls_config config.cert_file config.key_file config.ca_file)
                (some (expected_group config port)))))

  pub connected : LocketConfig → Result Stop String
  connected config =
      (append_extra_connection_string_param host config.database_driver
        config.database_connection_string config.sql_ca_cert_file []).0

  unfoldable pub plan_of : LocketConfig → Option (List Member)
  unfolding ready connected
  plan_of config = when (host.new_ingress_client config.loggregator_config) (
      after_ok (connected config) λ s. when (host.open_sql config.database_driver s) (ready config))

  unfoldable pub plan : String → Option (List Member)
  unfolding plan_of
  plan path =
      let (config, e) = new_locket_config host.open_file host.decode host.default_lager path in
      when e (plan_of config)

  -- Nothing was invoked, opened or closed.
  abbrev pub IsBare : List Call → Type 0
  IsBare calls = (invoked calls ≡ none) × (closes calls ≡ 0) × (opens host calls ≡ false)

  -- The calls of `serve` up to the group.
  abbrev pub served : LocketConfig → List Member → List Call → List Call
  served config group before =
      invoke_group group
      ∷ new_consul config.consul_cluster
      ∷ create_table
      ∷ ping_database
      ∷ set_max_open_conns config.max_open_database_connections
      ∷ set_max_idle_conns config.max_open_database_connections
      ∷ before

  -- `serve` has stopped with a panic, before the group.
  pub record Stopped (config : LocketConfig) (before : List Call) (event : String)
      (e : Option String) (r : Result Stop (Unit {0})) (calls : List Call) : Type 0 where
    pub unready : ready config ≡ none
    pub panics : r ≡ err (fatal event e)
    pub invoked_alike : invoked calls ≡ invoked before
    pub closes_alike : closes calls ≡ closes before
    pub opens_alike : opens host calls ≡ opens host before

  -- What `serve` has done, with `before` the calls before it.
  pub data Serves (config : LocketConfig) (before : List Call) (r : Result Stop (Unit {0}))
      (calls : List Call) : Type 0 where
    stopped :
        (event : String) (e : String)
        → Stopped config before event (some e) r calls
        → Serves config before r calls
    ran :
        (group : List Member)
        → ready config ≡ some group
        → r ≡ (exit_with (host.group_exit group) before).0
        → calls ≡ served config group before
        → Serves config before r calls

  pub serve-Serves :
      (config : LocketConfig) (before : List Call)
      → let (r, calls) = serve host config before in Serves config before r calls
  unfolding serve ready
  serve-Serves config before = elim (Option-cases host.ping) [
    | inr (e, a) ↦ Serves.stopped "sql-failed-to-connect" e (ground (arith, a))
    | inl a ↦ elim (Option-cases host.create_lock_table) [
      | inr (e, b) ↦ Serves.stopped "failed-to-create-lock-table" e (ground (arith, a, b))
      | inl b ↦ elim (Option-cases (host.new_consul_client config.consul_cluster)) [
        | inr (e, c) ↦ Serves.stopped "new-consul-client-failed" e (ground (arith, a, b, c))
        | inl c ↦ elim (Result-cases (host.split_host_port config.listen_address)) [
          | inr (e, d) ↦
              Serves.stopped "failed-invalid-listen-address" e (ground (arith, a, b, c, d))
          | inl ((h, text), d) ↦ elim (Result-cases (host.lookup_port text)) [
            | inr (e, f) ↦
                Serves.stopped "failed-invalid-listen-port" e (ground (arith, a, b, c, d, f))
            | inl (port, f) ↦
                elim (Option-cases
                  (host.new_tls_config config.cert_file config.key_file config.ca_file)) [
                    | inr (e, g) ↦
                        Serves.stopped "invalid-tls-config" e (ground (arith, a, b, c, d, f, g))
                    | inl g ↦
                        Serves.ran (group_members config port)
                          (ground (arith, a, b, c, d, f, g, group_members-expected config port))
                          (ground (arith, a, b, c, d, f, g)) (ground (arith, a, b, c, d, f, g))
                  ]
          ]
        ]
      ]
    ]
  ]

  -- What the connection string is does not depend on the calls before it.
  pub append_extra-connected :
      (config : LocketConfig) (before : List Call)
      → (append_extra_connection_string_param host config.database_driver
          config.database_connection_string config.sql_ca_cert_file before).0
        ≡ connected config
  unfolding connected append_extra_connection_string_param
  append_extra-connected config before = ground arith

  pub Connects-IsBare :
      {driver s ca_file : String} {before after : List Call} {r : Result Stop String}
      → Connects host driver s ca_file before r after
      → IsBare before
      → IsBare after
  Connects-IsBare (mysql d d' m p e t (unchanged c n same)) b = rw same b
  Connects-IsBare (mysql d d' m p e t (registered certs c f a n same)) b = rw same b
  Connects-IsBare (postgres parsed d p e same) b = rw same b
  Connects-IsBare (other m d e same) b = rw same b
  Connects-IsBare (refused event e m p same) b = rw same b

  pub metron-IsBare :
      (config : LocketConfig)
      → host.new_ingress_client config.loggregator_config ≡ none
      → ((initialize_metron host config []).0 ≡ ok tt) × IsBare (initialize_metron host config []).1
  unfolding initialize_metron
  metron-IsBare config e = ground (arith, e)
