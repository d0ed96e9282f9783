-- ===== src/Pos/Config.antt =====
-- pos/config.go: the settings. Durations are in seconds; the log level is left out.
use termwire.Common.{ℕ, Bool, false, String, List, [], ◌∷◌}
use termwire.Common.Int.{ℤ, pos}

pub record Config : Type 0 where
  pub host : String
  pub port : ℤ
  pub terminal_id : String
  pub serial_number : String
  pub version : String
  pub software_vendor : String
  pub read_timeout : ℕ
  pub write_timeout : ℕ
  pub idle_timeout : ℕ
  pub max_transaction_amount : ℤ
  pub supported_currencies : List String
  pub tls_enabled : Bool
  pub tls_cert_file : String
  pub tls_key_file : String
  pub tls_ca_file : String
  pub db_file : String

abbrev pub default_config : Config
default_config = record {
  host = "0.0.0.0";
  port = pos 8080;
  terminal_id = "POS-001";
  serial_number = "SN-123456789";
  version = "1.0.0";
  software_vendor = "Sirfi Technologies";
  read_timeout = 30;
  write_timeout = 30;
  idle_timeout = 300;
  max_transaction_amount = pos 10000000;
  supported_currencies = "TRY" ∷ "USD" ∷ "EUR" ∷ [];
  tls_enabled = false;
  tls_cert_file = "";
  tls_key_file = "";
  tls_ca_file = "";
  db_file = "pos-terminal.db";
}
