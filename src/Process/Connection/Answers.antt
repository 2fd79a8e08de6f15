-- ===== src/Process/Connection/Answers.antt =====
-- What the connection string names, and what has been registered with the MySQL driver for it.
use Prim.Native.String.{◌++◌}
use locket.Prelude.{
  String, ◌≡◌, ◌≢◌, ◌⊎◌, true, Option, none, some, List, ◌∷◌, refl, Result, ok, err, arith,
  Result-cases, Bool-cases, inl, inr, str_eq-cases,
}
use locket.Process.Host.{Host, Dsn, Call, register_tls_config, Stop, fatal}
use locket.Process.Connection.{
  append_extra_connection_string_param, ten_minutes, tls_name, mysql_string, with_timeouts,
  postgres_string,
}

module _ (host : Host) (driver s ca_file : String) (before : List Call) where
  -- A TLS configuration is named by the connection only if there is no CA file, and it is the one that
  -- the string had, or if the certificates of the CA file have just been registered under that name.
  pub data Secured (dsn dsn' : Dsn) (after : List Call) : Type 0 where
    unchanged :
        ca_file ≡ "" → dsn'.tls_config ≡ dsn.tls_config → after ≡ before → Secured dsn dsn' after
    registered :
        (certs : String)
        → ca_file ≢ ""
        → host.read_file ca_file ≡ ok certs
        → host.append_certs certs ≡ true
        → dsn'.tls_config ≡ tls_name
        → after ≡ register_tls_config tls_name certs ∷ before
        → Secured dsn dsn' after

  pub record Timed (dsn dsn' : Dsn) : Type 0 where
    pub timeout : dsn'.timeout ≡ ten_minutes
    pub read_timeout : dsn'.read_timeout ≡ ten_minutes
    pub write_timeout : dsn'.write_timeout ≡ ten_minutes
    pub other : dsn'.other ≡ dsn.other

  pub data Connects (r : Result Stop String) (after : List Call) : Type 0 where
    mysql :
        (dsn dsn' : Dsn)
        → driver ≡ "mysql"
        → host.parse_dsn s ≡ ok dsn
        → r ≡ ok (host.format_dsn dsn')
        → Timed dsn dsn'
        → Secured dsn dsn' after
        → Connects r after
    postgres :
        (parsed : String)
        → driver ≡ "postgres"
        → host.parse_url s ≡ ok parsed
        → ((ca_file ≡ "") × (r ≡ ok (parsed ++ " sslmode=disable")))
          ⊎ ((ca_file ≢ "") × (r ≡ ok (parsed ++ " sslmode=verify-ca sslrootcert=" ++ ca_file)))
        → after ≡ before
        → Connects r after
    other : driver ≢ "mysql" → driver ≢ "postgres" → r ≡ ok s → after ≡ before → Connects r after
    refused :
        (event : String) (e : Option String)
        → (driver ≡ "mysql") ⊎ (driver ≡ "postgres")
        → r ≡ err (fatal event e)
        → after ≡ before
        → Connects r after

  mysql-Connects :
      driver ≡ "mysql" → let (r, after) = mysql_string host s ca_file before in Connects r after
  unfolding mysql_string
  mysql-Connects m = elim (Result-cases (host.parse_dsn s)) [
    | inr (e, x) ↦
        Connects.refused "invalid-db-connection-string" (some e) (inl m) (ground (arith, x))
          (ground (arith, x))
    | inl (dsn, x) ↦ elim (str_eq-cases ca_file "") [
      | inl (p, b) ↦
          Connects.mysql dsn (with_timeouts host dsn) m x (ground (arith, x, b))
            (record { timeout = refl; read_timeout = refl; write_timeout = refl; other = refl })
            (Secured.unchanged p refl (ground (arith, x, b)))
      | inr (p, b) ↦ elim (Result-cases (host.read_file ca_file)) [
        | inr (e, y) ↦
            Connects.refused "failed-to-read-sql-ca-file" (some e) (inl m) (ground (arith, x, b, y))
              (ground (arith, x, b, y))
        | inl (certs, y) ↦ elim (Bool-cases (host.append_certs certs)) [
          | inl c ↦
              Connects.mysql dsn (with_timeouts host (record dsn { tls_config = tls_name })) m x
                (ground (arith, x, b, y, c))
                (record { timeout = refl; read_timeout = refl; write_timeout = refl; other = refl })
                (Secured.registered certs p y c refl (ground (arith, x, b, y, c)))
          | inr c ↦
              Connects.refused "failed-to-parse-sql-ca" none (inl m) (ground (arith, x, b, y, c))
                (ground (arith, x, b, y, c))
        ]
      ]
    ]
  ]

  postgres-Connects :
      driver ≡ "postgres"
      → let (r, after) = postgres_string host s ca_file before in Connects r after
  unfolding postgres_string
  postgres-Connects d = elim (Result-cases (host.parse_url s)) [
    | inr (e, x) ↦
        Connects.refused "invalid-db-connection-string" (some e) (inr d) (ground (arith, x))
          (ground (arith, x))
    | inl (parsed, x) ↦ elim (str_eq-cases ca_file "") [
      | inl (p, b) ↦
          Connects.postgres parsed d x (inl (p, ground (arith, x, b))) (ground (arith, x, b))
      | inr (p, b) ↦
          Connects.postgres parsed d x (inr (p, ground (arith, x, b))) (ground (arith, x, b))
    ]
  ]

  -- Whatever the host answers, the connection string is one of three. For MySQL it is the one given,
  -- with its three timeouts set to ten minutes; it names a TLS configuration of its own only if no CA
  -- file is given, and else the one whose roots, the certificates of that file, have just been
  -- registered with the driver. For Postgres it is the one parsed with `sslmode` appended, `disable`
  -- exactly if there is no CA file. For another driver it is the one given. Otherwise `main` panics,
  -- for MySQL or Postgres only. Nothing else is called.
  pub append_extra-Connects :
      let (r, after) = append_extra_connection_string_param host driver s ca_file before in
      Connects r after
  unfolding append_extra_connection_string_param
  append_extra-Connects = elim (str_eq-cases driver "mysql") [
    | inl (m, x) ↦ rw x (mysql-Connects m)
    | inr (m, x) ↦ elim (str_eq-cases driver "postgres") [
      | inl (d, y) ↦ rw (x, y) (postgres-Connects d)
      | inr (d, y) ↦ rw (x, y) (Connects.other m d refl refl)
    ]
  ]
