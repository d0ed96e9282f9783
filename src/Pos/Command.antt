-- ===== src/Pos/Command.antt =====
-- The settings of pos/cmd/main.go: the default ones, written over from the environment. Waiting for a
-- signal and logging the statistics every minute are left out.
use Prim.Native.String.{String}
use termwire.Common.{true, str_eq, if◌then◌else◌, none, some}
use termwire.Go.Scan.{scan_int}
use termwire.Pos.Config.{Config, default_config}

-- `os.Getenv`, which gives the empty text for a variable that is not set.
abbrev pub Environment : Type 0
Environment = String → String

unfoldable pub get_env : Environment → String → String → String
get_env vars key fallback = if str_eq (vars key) "" then fallback else vars key

-- `if v := os.Getenv(key); v != "" { … }`
abbrev when_set : Environment → String → (String → Config → Config) → Config → Config
when_set vars key use_value c = if str_eq (vars key) "" then c else use_value (vars key) c

-- A port that cannot be scanned leaves the setting as it is.
abbrev scanned_port : String → Config → Config
scanned_port text c = elim (scan_int text) [ none ↦ c | some n ↦ record c { port = n } ]

abbrev with_tls : Environment → Config → Config
with_tls vars c =
    if str_eq (vars "POS_TLS_ENABLED") "true"
    then record c {
      tls_enabled = true;
      tls_cert_file = get_env vars "POS_TLS_CERT" "certs/server.crt";
      tls_key_file = get_env vars "POS_TLS_KEY" "certs/server.key";
      tls_ca_file = get_env vars "POS_TLS_CA" "certs/ca.crt";
    }
    else c

unfoldable pub load_config : Environment → Config
load_config vars =
    let with_host = when_set vars "POS_HOST" (λ v c. record c { host = v }) default_config in
    let with_port = when_set vars "POS_PORT" scanned_port with_host in
    let with_terminal =
      when_set vars "POS_TERMINAL_ID" (λ v c. record c { terminal_id = v }) with_port in
    let secured = with_tls vars with_terminal in
    when_set vars "POS_DB_FILE" (λ v c. record c { db_file = v }) secured
