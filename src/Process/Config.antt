-- ===== src/Process/Config.antt =====
-- cmd/locket/config/config.go. Opening the file, decoding it and the default of the logger's settings
-- are parameters. A decoder is given the configuration that it fills in, and leaves what it has filled
-- in also when it fails.
use locket.Prelude.{String, Bool, false, Option, none, some, Result, ok, err}
use locket.Prelude.Int64.{ℤ, pos}

-- The settings of the loggregator client: what `main` reads of them, and the rest.
pub record Loggregator : Type 0 where
  pub use_v2_api : Bool
  pub settings : String

pub record LocketConfig : Type 0 where
  pub ca_file : String
  pub cert_file : String
  pub consul_cluster : String
  pub database_connection_string : String
  pub max_open_database_connections : ℤ
  pub database_driver : String
  pub dropsonde_port : ℤ
  pub key_file : String
  pub listen_address : String
  pub sql_ca_cert_file : String
  pub loggregator_config : Loggregator
  pub debug_address : String
  pub lager_config : String

-- `LocketConfig{}`
abbrev pub empty_config : LocketConfig
empty_config = record {
  ca_file = "";
  cert_file = "";
  consul_cluster = "";
  database_connection_string = "";
  max_open_database_connections = pos 0;
  database_driver = "";
  dropsonde_port = pos 0;
  key_file = "";
  listen_address = "";
  sql_ca_cert_file = "";
  loggregator_config = record { use_v2_api = false; settings = "" };
  debug_address = "";
  lager_config = "";
}

abbrev pub default_locket_config : String → LocketConfig
default_locket_config lager = record empty_config {
  lager_config = lager;
  database_driver = "mysql";
}

decoded : LocketConfig × Option String → LocketConfig × Option String
decoded (config, none) = (config, none)
decoded (config, some e) = (empty_config, some e)

read_config :
    (String → LocketConfig → LocketConfig × Option String)
    → LocketConfig
    → Result String String
    → LocketConfig × Option String
unfolding decoded
read_config decode config (err e) = (empty_config, some e)
read_config decode config (ok contents) = decoded (decode contents config)

unfoldable pub new_locket_config :
    (String → Result String String)
    → (String → LocketConfig → LocketConfig × Option String)
    → String
    → String
    → LocketConfig × Option String
unfolding read_config
new_locket_config open_file decode lager config_path =
    read_config decode (default_locket_config lager) (open_file config_path)
