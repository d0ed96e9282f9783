-- ===== src/Pos/Server/Tests.antt =====
-- The server's theorems at a ping and at a question for the version.
use termwire.Go.Dict.{lookup}
use termwire.Pos.Config.{default_config}
use termwire.Pos.Server.Table.{Table, register, check_idle_connections}
use termwire.Pos.Server.Table.Idle.{kept, starts, registers, lookup-check_idle_connections}
use termwire.Common.{◌≡◌, refl, [], ◌∷◌, ◌++◌, some, arith}
use termwire.Frame.{new_frame, serialize, frame_type_ping, frame_type_data}
use termwire.Frame.Reader as Reader
use termwire.Frame.Reader.{eof, read_frame}
use termwire.Pos.Server.{done, handle_frame}
use termwire.Pos.Server.Connection.{write, next_sequence}
use termwire.Pos.Server.Exchange.{handle_frame_data}
use termwire.Frame.{Frame, frame_type_close}
use termwire.Pos.Server.Session.{Round, handle_client_messages, serve_frames}
use termwire.Pos.Server.Session.Laws.{
  new_frame-Delivers, Delivers, IsStopped, stream, handle_client_messages-IsStopped,
  handle_client_messages-serve_frames,
}
use termwire.Common.{All, List, ℕ, false}
use termwire.Pos.Server.Samples.{
  io, shop, client, question, answer, messages, responses, answered, encodes,
}

handle_frame_data_example :
    let reply_frame = new_frame frame_type_data 0 (7 ∷ []) in
    (handle_frame messages responses io (new_frame frame_type_data 3 []) client shop
      ≡ (done, write (serialize reply_frame) (next_sequence client), shop))
    × (read_frame eof (serialize reply_frame ++ []) ≡ (Reader.ok reply_frame, []))
    × (messages.unmarshal (7 ∷ []) ≡ some answer)
unfolding new_frame
handle_frame_data_example =
    handle_frame_data messages responses io eof [] (new_frame frame_type_data 3 []) client shop refl
      refl question answer shop (7 ∷ []) refl refl answered encodes (omega arith) (omega arith, tt)

abbrev round : ℕ → Round
round k = record { stops = false; io = io }

-- A question, a ping, and a frame that closes the connection.
abbrev sent : List Frame
sent =
    new_frame frame_type_data 3 []
    ∷ new_frame frame_type_ping 4 []
    ∷ new_frame frame_type_close 5 []
    ∷ []

sent-Delivers : All Delivers sent
sent-Delivers = (
  new_frame-Delivers _ _ _ (omega arith) (omega arith) (omega arith) (omega arith) tt,
  (
    new_frame-Delivers _ _ _ (omega arith) (omega arith) (omega arith) (omega arith) tt,
    (new_frame-Delivers _ _ _ (omega arith) (omega arith) (omega arith) (omega arith) tt, tt),
  ),
)

handle_client_messages-serve_frames_example :
    handle_client_messages messages responses round eof 4 0 (stream sent) client shop
    ≡ serve_frames messages responses round eof 0 sent client shop
handle_client_messages-serve_frames_example =
    handle_client_messages-serve_frames messages responses round eof 4 0 sent client shop
      sent-Delivers (omega arith)

-- Bytes that are no frame.
abbrev noise : List ℕ
noise = 9 ∷ 2 ∷ 84 ∷ 2 ∷ []

handle_client_messages-IsStopped_example :
    IsStopped (handle_client_messages messages responses round eof 5 0 noise client shop).0
handle_client_messages-IsStopped_example =
    handle_client_messages-IsStopped messages responses round eof 5 0 noise client shop
      (omega arith)

abbrev nobody : Table
nobody = record { connections = []; closed = [] }

-- Two connections, of which the first has said nothing for 500 seconds.
abbrev two_clients : Table
two_clients = register "b" 1 400000000000 (register "a" 0 0 nobody)

lookup-check_idle_connections_example :
    lookup "a" (check_idle_connections default_config 500000000000 two_clients).connections
    ≡ kept default_config 500000000000 (lookup "a" two_clients.connections)
lookup-check_idle_connections_example =
    lookup-check_idle_connections default_config 500000000000 two_clients "a"
      (registers "b" 1 400000000000 (registers "a" 0 0 starts))
