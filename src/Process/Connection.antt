-- ===== src/Process/Connection.antt =====
-- appendExtraConnectionStringParam of cmd/locket/main.go.
pub mod Answers
use Prim.Native.String.{◌++◌}
use locket.Prelude.{
  ℕ, String, ◌≡◌, ◌≢◌, Bool, true, false, Option, none, some, List, ◌∷◌, ◌==◌, if◌then◌else◌,
  Result, ok, err, pure, raise, ◌>>=◌, ◌>>◌, arith, Result-cases, Bool-cases, inl, inr, eq_iff,
}
use locket.Process.Host.{Host, Dsn, Call, register_tls_config, Stop, fatal, Main, call, answer}

-- time.Minute * 10
abbrev pub ten_minutes : ℕ
ten_minutes = 600000000000

abbrev pub tls_name : String
tls_name = "bbs-tls"

module _ (host : Host) where
  -- The certificates of the CA file become the roots of a TLS configuration, which is registered. The
  -- error that is logged for certificates that do not parse is that of reading the file, which is nil.
  register_ca : String → Dsn → Main Dsn
  register_ca ca_file dsn = do
    certs ← answer "failed-to-read-sql-ca-file" (host.read_file ca_file)
    if host.append_certs certs
        then (call (register_tls_config tls_name certs)
            >> pure (record dsn { tls_config = tls_name }))
        else raise (fatal "failed-to-parse-sql-ca" none)

  with_timeouts : Dsn → Dsn
  with_timeouts dsn = record dsn {
    timeout = ten_minutes;
    read_timeout = ten_minutes;
    write_timeout = ten_minutes;
  }

  mysql_string : String → String → Main String
  unfolding register_ca with_timeouts
  mysql_string s ca_file = do
    dsn ← answer "invalid-db-connection-string" (host.parse_dsn s)
    dsn' ← if ca_file == "" then pure dsn else register_ca ca_file dsn
    pure (host.format_dsn (with_timeouts dsn'))

  postgres_string : String → String → Main String
  postgres_string s ca_file = do
    parsed ← answer "invalid-db-connection-string" (host.parse_url s)
    if ca_file == ""
        then pure (parsed ++ " sslmode=disable")
        else pure (parsed ++ " sslmode=verify-ca sslrootcert=" ++ ca_file)

  unfoldable pub append_extra_connection_string_param : String → String → String → Main String
  unfolding mysql_string postgres_string
  append_extra_connection_string_param driver s ca_file =
      if driver == "mysql"
      then mysql_string s ca_file
      else if driver == "postgres"
      then postgres_string s ca_file
      else pure s
