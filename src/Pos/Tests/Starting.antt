-- ===== src/Pos/Tests/Starting.antt =====
-- The command, was_started with TLS.
use termwire.Common.{◌≡◌, refl, ◌⊎◌, true, false, str_eq, if◌then◌else◌, [], none, some}
use termwire.Go.Dict.{lookup}
use termwire.Go.Fmt.{decimal, digits}
use termwire.Go.Scan.{scan_int, number}
use termwire.Pos.Card.{new_card_reader}
use termwire.Pos.Command.{Environment, get_env, load_config}
use termwire.Pos.Db.{ok, Db}
use termwire.Pos.Manager.Restart.{open_db, stored_counter, new_transaction_manager}
use termwire.Pos.Server.Lifecycle.{
  Network, Server, new_message_handler, new_server, tls_settings, start, address,
}
use termwire.Pos.Server.Lifecycle.Starting.{
  strict, IsChecked, Listens, ListensOrFails, start-load_config,
}

abbrev vars : Environment
vars key =
    if str_eq key "POS_TLS_ENABLED" then "true" else if str_eq key "POS_PORT" then "8443" else ""

abbrev network : Network
network = record {
  certificate_error = none;
  ca_error = none;
  ca_parses = true;
  listen_error = λ a tls. none;
}

abbrev no_rows : Db
no_rows = record { rows = []; metadata = [] }

abbrev server : Server
server = record {
  config = load_config vars;
  handler = record {
    manager = record {
      active = [];
      receipt_counter = 1000;
      config = load_config vars;
      db = no_rows;
    };
    card_reader = new_card_reader;
  };
  table = record { connections = []; closed = [] };
  listener = none;
  is_shut_down = false;
}

made : new_server (λ k. none) (load_config vars) no_rows ≡ ok server
unfolding new_server new_message_handler new_transaction_manager open_db stored_counter lookup
made = refl

abbrev listening : Server
listening = record server {
  listener = some (record { address = address server.config; tls = some strict });
}

was_started : start network server ≡ (none, listening)
unfolding start tls_settings load_config get_env scan_int number str_eq
was_started = refl

reads_port : address (load_config vars) ≡ "0.0.0.0:8443"
unfolding load_config get_env scan_int number str_eq decimal digits
reads_port = refl

start-load_config_example :
    ((vars "POS_TLS_ENABLED" ≡ "true")
      × IsChecked network
      × ListensOrFails network (address (load_config vars)) listening strict)
    ⊎ ((¬ (vars "POS_TLS_ENABLED" ≡ "true")) × Listens vars listening none)
start-load_config_example =
    start-load_config vars (λ k. none) no_rows network server listening made was_started

-- A port that is taken.
abbrev taken : Network
taken = record network { listen_error = λ a tls. some "address already in use" }

starts_deaf : start taken server ≡ (none, server)
unfolding start tls_settings load_config get_env scan_int number str_eq
starts_deaf = refl
