-- ===== src/Pos/Server/Table.antt =====
-- The table of connections of pos/server.go: handleConnection's entry and exit, the last activity, the
-- idle check, and GetStats' count. A connection's socket is a number; times are in nanoseconds of the
-- monotonic clock. No other connection runs between the two locks of the idle check.
pub mod Idle
use Prim.Native.String.{String}
use Prim.Native.String
use termwire.Common.{
  ℕ, ◌+◌, ◌*◌, ltb, if◌then◌else◌, List, [], ◌∷◌, ◌++◌, map, Bool, Option, none, some, length,
}
use termwire.Go.Dict.{Dict, lookup, insert, erase}
use termwire.Go.Fmt.{decimal}
use termwire.Go.Time.{Time, unix}
use termwire.Pos.Config.{Config}

pub record Entry : Type 0 where
  pub id : String
  pub socket : ℕ
  pub last_active : ℕ

-- The table, and the sockets that the server has closed.
pub record Table : Type 0 where
  pub connections : Dict Entry
  pub closed : List ℕ

abbrev pub client_id : String → Time → String
client_id address now =
    String.◌++◌ "client-" (String.◌++◌ address (String.◌++◌ "-" (decimal (unix now))))

unfoldable pub register : String → ℕ → ℕ → Table → Table
register id socket now t = record t {
  connections = insert id (record { id = id; socket = socket; last_active = now }) t.connections;
}

unfoldable pub unregister : String → ℕ → Table → Table
unregister id socket t = record t {
  connections = erase id t.connections;
  closed = socket ∷ t.closed;
}

-- `client.lastActive = time.Now()`, through the pointer that the table holds.
unfoldable pub touch : String → ℕ → Table → Table
touch id now t = elim (lookup id t.connections) [
  | none ↦ t
  | some e ↦ record t { connections = insert id (record e { last_active = now }) t.connections }
]

unfoldable pub is_idle : Config → ℕ → Entry → Bool
is_idle config now e = ltb (config.idle_timeout * 1000000000 + e.last_active) now

abbrev pub idle_entries : Config → ℕ → Dict Entry → List Entry
idle_entries config now [] = []
idle_entries config now ((k, e) ∷ d) =
    let rest = idle_entries config now d in if is_idle config now e then e ∷ rest else rest

abbrev pub erase_entries : List Entry → Dict Entry → Dict Entry
erase_entries [] d = d
erase_entries (e ∷ idle) d = erase_entries idle (erase e.id d)

abbrev pub close_idle : List Entry → Table → Table
close_idle [] t = t
close_idle (e ∷ idle) t = record t {
  connections = erase_entries (e ∷ idle) t.connections;
  closed = map (λ (x : Entry). x.socket) (e ∷ idle) ++ t.closed;
}

unfoldable pub check_idle_connections : Config → ℕ → Table → Table
check_idle_connections config now t = close_idle (idle_entries config now t.connections) t

-- Stop closes every socket; the handlers of the connections then leave the table themselves.
abbrev sockets : Dict Entry → List ℕ
sockets [] = []
sockets ((k, e) ∷ d) = e.socket ∷ sockets d

unfoldable pub close_all : Table → Table
close_all t = record t { closed = sockets t.connections ++ t.closed }

unfoldable pub active_connections : Table → ℕ
active_connections t = length t.connections
