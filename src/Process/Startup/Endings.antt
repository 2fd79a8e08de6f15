-- ===== src/Process/Startup/Endings.antt =====
-- How `main` ends.
use locket.Prelude.{
  String, ◌≡◌, ◌∙◌, ◌≢◌, ◌⊎◌, inl, inr, refl, Bool, true, false, Option, none, some, List, [], ◌∷◌,
  if◌then◌else◌, Result, ok, err, Result-cases, Option-cases, arith,
}
use locket.Process.Config.{LocketConfig, new_locket_config}
use locket.Process.Host.{Host, Member, Call, Stop, exited, open_database, close_database}
use locket.Process.Connection.{append_extra_connection_string_param}
use locket.Process.Connection.Answers.{append_extra-Connects}
use locket.Process.Startup.{
  main, connect, serve, close_after, exit_with, with_close, initialize_metron,
}
use locket.Process.Startup.Outcomes.{
  invoked, closes, opens, connected, ready, plan_of, plan, IsBare, served, Serves, stopped, ran,
  serve-Serves, append_extra-connected, Connects-IsBare, metron-IsBare,
}

-- The error with which the process ends, if `main` does not return.
abbrev pub fails : Result Stop (Unit {0}) → Bool
fails (ok a) = false
fails (err e) = true

module _ (host : Host) where
  -- `rest` is what `main` has called up to the opening of the pool.
  pub record Ran (group : List Member) (before : List Call) (r : Result Stop (Unit {0}))
      (calls : List Call) : Type 0 where
    pub invoked_group : invoked calls ≡ some group
    pub opened : opens host calls ≡ true
    pub ended :
        ((host.group_exit group ≡ none)
          × (r ≡ ok tt)
          × (calls ≡ close_database ∷ before)
          × (closes calls ≡ 1))
        ⊎ ((host.group_exit group ≢ none)
            × (r ≡ err (exited 1))
            × (calls ≡ before)
            × (closes calls ≡ 0))

  pub data Ends (path : String) (r : Result Stop (Unit {0})) (calls : List Call) : Type 0 where
    not_started :
        plan host path ≡ none
        → fails r ≡ true
        → invoked calls ≡ none
        → closes calls ≡ (if opens host calls then 1 else 0)
        → Ends path r calls
    started :
        (config : LocketConfig) (group : List Member) (s : String) (rest : List Call)
        → plan host path ≡ some group
        → IsBare host rest
        → Ran group
            (served host config group (open_database config.database_driver s ∷ rest))
            r
            calls
        → Ends path r calls

  module _ (config : LocketConfig) (s : String) (rest : List Call) (bare : IsBare host rest)
      (opened : host.open_sql config.database_driver s ≡ none) where
    abbrev with_pool : List Call
    with_pool = open_database config.database_driver s ∷ rest

    close-Ends :
        (path : String) (r : Result Stop (Unit {0})) (calls : List Call)
        → plan host path ≡ ready host config
        → Serves host config with_pool r calls
        → Ends path (close_after r calls).0 (close_after r calls).1
    unfolding close_after exit_with
    close-Ends path r calls p (stopped event e v) =
        Ends.not_started (p ∙ v.unready) (rw v.panics refl)
          (ground (arith, v.panics, v.invoked_alike, bare))
          (ground (arith, v.panics, v.closes_alike, v.opens_alike, opened, bare))
    close-Ends path r calls p (ran group q x same) = elim (Option-cases (host.group_exit group)) [
      | inl e ↦
          Ends.started config group s rest (p ∙ q) bare (ground (arith, e, x, same, opened, bare))
      | inr (e, h) ↦
          Ends.started config group s rest (p ∙ q) bare (ground (arith, h, x, same, opened, bare))
    ]

  serve-Ends :
      (path : String) (config : LocketConfig) (s : String) (rest : List Call)
      → IsBare host rest
      → host.open_sql config.database_driver s ≡ none
      → plan host path ≡ ready host config
      → let (r, calls) =
          with_close (serve host config) (open_database config.database_driver s ∷ rest) in
        Ends path r calls
  unfolding with_close
  serve-Ends path config s rest bare opened p =
      close-Ends config s rest bare opened path _ _ p (serve-Serves host config _)

  -- From the connection string on.
  connect-Ends :
      (path : String) (config : LocketConfig) (before : List Call)
      → IsBare host before
      → host.new_ingress_client config.loggregator_config ≡ none
      → plan host path ≡ plan_of host config
      → let (r, calls) = connect host config before in Ends path r calls
  unfolding connect plan_of
  connect-Ends path config before bare metron p = elim (Result-cases (connected host config)) [
    | inr (e, x) ↦
        let y = same ∙ x in
        Ends.not_started (ground (arith, p, metron, x)) (ground (arith, y))
          (ground (arith, y, after)) (ground (arith, y, after))
    | inl (s, x) ↦ elim (Option-cases (host.open_sql config.database_driver s)) [
      | inr (e, o) ↦
          let y = same ∙ x in
          Ends.not_started (ground (arith, p, metron, x, o)) (ground (arith, y, o))
            (ground (arith, y, o, after)) (ground (arith, y, o, after))
      | inl o ↦
          let y = same ∙ x in
          let whole : connect host config before
              ≡ with_close (serve host config) (open_database config.database_driver s ∷ called.1) =
            ground (arith, y, o) in
          rw whole (serve-Ends path config s _ after o (ground (arith, p, metron, x, o)))
    ]
  ]
    where
      called : Result Stop String × List Call
      called =
          append_extra_connection_string_param host config.database_driver
            config.database_connection_string config.sql_ca_cert_file before

      same : called.0 ≡ connected host config
      same = append_extra-connected host config before

      after : IsBare host called.1
      after = Connects-IsBare host (append_extra-Connects host _ _ _ before) bare

  -- However the host answers, `main` ends in one of two ways. It fails, by a panic or an exit code,
  -- with no group of runners started, and a pool of connections that was opened is closed once; then
  -- and only then some answer before the group was an error (`plan`). Or it has started a group: the
  -- debug server, if it has an address, then the server, the burglar, the metrics notifier and the
  -- registration runner. Before that it has opened the pool, once, has limited its idle and its open
  -- connections, pinged the database, made the lock table and made the consul client, in that order. If
  -- the group exits without an error it closes the pool, last of all, and returns; if with an error, it
  -- exits with code 1 and the pool is not closed.
  pub main-Ends : (path : String) → let (r, calls) = main host path [] in Ends path r calls
  unfolding main plan
  main-Ends path = elim (Option-cases read.1) [
    | inr (e, x) ↦
        Ends.not_started (ground (arith, x)) (ground (arith, x)) (ground (arith, x))
          (ground (arith, x))
    | inl x ↦ elim (Option-cases (host.new_ingress_client read.0.loggregator_config)) [
      | inr (e, m) ↦
          Ends.not_started (ground (arith, x, m)) (ground (arith, x, m)) (ground (arith, x, m))
            (ground (arith, x, m))
      | inl m ↦
          let (done, bare) = metron-IsBare host read.0 m in
          let whole : main host path [] ≡ connect host read.0 (initialize_metron host read.0 []).1 =
            ground (arith, x, m, done) in
          rw whole (connect-Ends path read.0 _ bare m (ground (arith, x)))
    ]
  ]
    where
      read : LocketConfig × Option String
      read = new_locket_config host.open_file host.decode host.default_lager path
