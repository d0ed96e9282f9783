-- ===== src/Pos/Server/Lifecycle.antt =====
-- The life of the server of pos/server.go: NewServer, Start, Stop and GetStats. Accepting connections and the
-- ticker of the monitor run beside it; what they do to the table is in Table.
pub mod Starting
use Prim.Native.String.{String, ◌++◌}
use termwire.Common.{ℕ, Bool, true, false, str_eq, if◌then◌else◌, [], Option, none, some}
use termwire.Go.Fmt.{signed}
use termwire.Go.Time.{Time, format_rfc3339}
use termwire.Pos.Card.{new_card_reader}
use termwire.Pos.Config.{Config}
use termwire.Pos.Db.{Outcome, ok, err, Db}
use termwire.Pos.Handler.Env.{Handler}
use termwire.Pos.Manager.Restart.{new_transaction_manager}
use termwire.Pos.Manager.Statistics.{Statistics, get_statistics}
use termwire.Pos.Server.Table.{Table, close_all, active_connections}

-- The settings of TLS with which the server listens.
pub record Tls : Type 0 where
  pub min_version : String
  pub requires_client_certificate : Bool

-- A listener, and with which settings of TLS it was opened, if any.
pub record Listener : Type 0 where
  pub address : String
  pub tls : Option Tls

pub record Server : Type 0 where
  pub config : Config
  pub handler : Handler
  pub table : Table
  pub listener : Option Listener
  pub is_shut_down : Bool

unfoldable pub new_message_handler : (ℕ → Option String) → Config → Db → Outcome Handler
new_message_handler faults config db = elim (new_transaction_manager faults config db) [
  | err e ↦ err ("creating transaction manager: " ++ e)
  | ok m ↦ ok (record { manager = m; card_reader = new_card_reader })
]

unfoldable pub new_server : (ℕ → Option String) → Config → Db → Outcome Server
new_server faults config db = elim (new_message_handler faults config db) [
  | err e ↦ err ("creating message handler: " ++ e)
  | ok h ↦ ok (record {
    config = config;
    handler = h;
    table = record { connections = []; closed = [] };
    listener = none;
    is_shut_down = false;
  })
]

-- What Start meets: the errors of loading the certificate and of reading the CA's file, whether that file
-- parses, and the error of listening at an address with settings of TLS, if any.
pub record Network : Type 0 where
  pub certificate_error : Option String
  pub ca_error : Option String
  pub ca_parses : Bool
  pub listen_error : String → Option Tls → Option String

abbrev pub address : Config → String
address c = c.host ++ ":" ++ signed c.port

abbrev client_ca : Network → Outcome Tls
client_ca net = elim (net.ca_error) [
  | some e ↦ err ("failed to read CA file: " ++ e)
  | none ↦
      if net.ca_parses
      then ok (record { min_version = "1.3"; requires_client_certificate = true })
      else err "failed to parse CA certificate"
]

unfoldable pub tls_settings : Network → Config → Outcome Tls
tls_settings net c = elim (net.certificate_error) [
  | some e ↦ err ("failed to load TLS cert/key: " ++ e)
  | none ↦
      if str_eq c.tls_ca_file ""
      then ok (record { min_version = "1.3"; requires_client_certificate = false })
      else client_ca net
]

-- The listener, or the error, of `tls.Listen` and `net.Listen`.
abbrev pub listen : Network → Option Tls → Config → Outcome Listener
listen net tls c = elim (net.listen_error (address c) tls) [
  | some e ↦ err e
  | none ↦ ok (record { address = address c; tls = tls })
]

-- Under TLS, `cert, err := …` declares an `err` of its own, which `tls.Listen` assigns: the test behind
-- the branch reads the outer one, which is nil, and the listener stays nil when `tls.Listen` fails.
abbrev pub secure : Network → Tls → Server → Option String × Server
secure net tls s = elim (listen net (some tls) s.config) [
  | err e ↦ (none, record s { listener = none })
  | ok l ↦ (none, record s { listener = some l })
]

unfoldable pub start : Network → Server → Option String × Server
start net s =
    if s.config.tls_enabled
    then elim (tls_settings net s.config) [ err e ↦ (some e, s) | ok tls ↦ secure net tls s ]
    else elim (listen net none s.config) [
      | err e ↦ (some ("failed to start server: " ++ e), s)
      | ok l ↦ (none, record s { listener = some l })
    ]

-- Closing the channel a second time panics, which is `none`.
unfoldable pub stop : Server → Option Server
stop s =
    if s.is_shut_down
    then none
    else some (record s { table = close_all s.table; listener = none; is_shut_down = true })

-- GetStats. The statistics of the transactions have the prefix `txn_` on their names.
pub record ServerStats : Type 0 where
  pub active_connections : ℕ
  pub address : String
  pub uptime : String
  pub txn : Statistics

unfoldable pub get_stats : Option String → Option String → Time → Server → ServerStats
get_stats fault fault' now s = record {
  active_connections = active_connections s.table;
  address = address s.config;
  uptime = format_rfc3339 now;
  txn = get_statistics fault fault' s.handler.manager;
}
