-- ===== src/Ecr/Config.antt =====
-- ecr/config.go: the settings of the register. Durations are in seconds; the log level is left out.
use termwire.Common.{ℕ, Bool, true, false, String}
use termwire.Common.Int.{ℤ, pos}

pub record Config : Type 0 where
  pub pos_host : String
  pub pos_port : ℕ
  pub connect_timeout : ℕ
  pub read_timeout : ℕ
  pub write_timeout : ℕ
  pub max_retries : ℤ
  pub retry_delay : ℕ
  pub client_id : String
  pub client_version : String
  pub default_currency : String
  pub enable_loyalty : Bool
  pub tls_enabled : Bool
  pub tls_ca_file : String
  pub tls_cert_file : String
  pub tls_key_file : String
  pub tls_server_name : String
  pub debug : Bool

abbrev pub default_config : Config
default_config = record {
  pos_host = "localhost";
  pos_port = 8080;
  connect_timeout = 10;
  read_timeout = 30;
  write_timeout = 30;
  max_retries = pos 3;
  retry_delay = 2;
  client_id = "ECR-001";
  client_version = "1.0.0";
  default_currency = "TRY";
  enable_loyalty = true;
  tls_enabled = false;
  tls_ca_file = "";
  tls_cert_file = "";
  tls_key_file = "";
  tls_server_name = "";
  debug = false;
}

abbrev pub with_pos_address : String → ℕ → Config → Config
with_pos_address host port c = record c { pos_host = host; pos_port = port }

abbrev pub with_timeouts : ℕ → ℕ → ℕ → Config → Config
with_timeouts connect read write c = record c {
  connect_timeout = connect;
  read_timeout = read;
  write_timeout = write;
}

abbrev pub with_retry : ℤ → ℕ → Config → Config
with_retry max_retries delay c = record c { max_retries = max_retries; retry_delay = delay }

abbrev pub with_client_info : String → String → Config → Config
with_client_info id version c = record c { client_id = id; client_version = version }

abbrev pub with_currency : String → Config → Config
with_currency currency c = record c { default_currency = currency }

abbrev pub with_loyalty : Bool → Config → Config
with_loyalty enabled c = record c { enable_loyalty = enabled }

abbrev pub with_debug : Bool → Config → Config
with_debug enabled c = record c { debug = enabled }
