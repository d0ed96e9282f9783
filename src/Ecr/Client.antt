-- ===== src/Ecr/Client.antt =====
-- Client of ecr/client.go. The fields conn, reader, writer and connected are set and cleared together,
-- and stand as one optional connection; logging and the pauses between retries are left out.
pub mod Stream
pub mod Rounds
pub mod Sending
pub mod Answers
pub mod Exchange
pub mod Lifecycle
pub mod Returns
use Prim.Native.String.{String, ◌++◌}
use termwire.Common.{
  ℕ, zero, suc, ◌+◌, u16, Bool, true, false, ◌==◌, not, str_eq, ◌&&◌, if◌then◌else◌, List, [],
  Option, none, some,
}
use termwire.Common.Int.{ℤ, pos, negsuc}
use termwire.Ecr.Client.Stream.{Connection, fresh_connection, Attempt, write_frame, read_response}
use termwire.Ecr.Config.{Config, default_config}
use termwire.Frame.{
  Frame, new_frame, frame_type_ping, frame_type_pong, frame_type_data, frame_type_close,
}
use termwire.Go.Fmt.{decimal}
use termwire.Go.Outcome.{Outcome, ok, err}
use termwire.Message.{Message}
use termwire.Message.Codec.{Codec}

pub record Client : Type 0 where
  pub config : Config
  pub connection : Option Connection
  pub sequence : ℕ

-- NewClient; a nil configuration is `none`.
unfoldable pub new_client : Option Config → Client
new_client none = record { config = default_config; connection = none; sequence = 0 }
new_client (some config) = record { config = config; connection = none; sequence = 0 }

-- What Connect meets: the errors of reading the CA's file and the client's certificate, whether the
-- CA's file parses, and the error of the dial, which has the settings of TLS, if it is on.
pub record Tls : Type 0 where
  pub server_name : String
  pub with_ca : Bool
  pub with_certificate : Bool

pub record Dial : Type 0 where
  pub ca_error : Option String
  pub ca_parses : Bool
  pub certificate_error : Option String
  pub dial_error : Option Tls → Option String

abbrev if_set : Bool → Outcome Bool → Outcome Bool
if_set true r = r
if_set false r = ok false

abbrev ca : Dial → Outcome Bool
ca d = elim (d.ca_error) [
  | some e ↦ err ("failed to read CA file: " ++ e)
  | none ↦ if d.ca_parses then ok true else err "failed to parse CA certificate"
]

abbrev certificate : Dial → Outcome Bool
certificate d = elim (d.certificate_error) [
  | some e ↦ err ("failed to load client TLS cert/key: " ++ e)
  | none ↦ ok true
]

unfoldable pub tls_settings : Dial → Config → Outcome Tls
tls_settings d c = elim (if_set (not (str_eq c.tls_ca_file "")) (ca d)) [
  | err e ↦ err e
  | ok with_ca ↦
      elim (if_set (not (str_eq c.tls_cert_file "") && not (str_eq c.tls_key_file ""))
        (certificate d)) [
          | err e ↦ err e
          | ok with_certificate ↦ ok (record {
            server_name = if str_eq c.tls_server_name "" then c.pos_host else c.tls_server_name;
            with_ca = with_ca;
            with_certificate = with_certificate;
          })
        ]
]

abbrev open_connection : Option String → Client → Option String × Client
open_connection (some e) c = (some ("failed to connect to POS: " ++ e), c)
open_connection none c = (none, record c { connection = some fresh_connection })

unfoldable pub connect : Dial → Client → Option String × Client
connect d c = elim (c.connection) [
  | some _ ↦ (some "already connected", c)
  | none ↦
      if c.config.tls_enabled
      then elim (tls_settings d c.config) [
        | err e ↦ (some e, c)
        | ok tls ↦ open_connection (d.dial_error (some tls)) c
      ]
      else open_connection (d.dial_error none) c
]

abbrev pub next_sequence : Client → Client
next_sequence c = record c { sequence = u16 (c.sequence + 1) }

-- The error of writing the close frame is not looked at. The result has the connection as it is closed.
unfoldable pub disconnect : Attempt → Client → Option Connection × Client
disconnect a c = elim (c.connection) [
  | none ↦ (none, c)
  | some conn ↦
      let c' = next_sequence c in
      let (_, closed) = write_frame a (new_frame frame_type_close c'.sequence []) conn in
      (some closed, record c' { connection = none })
]

unfoldable pub is_connected : Client → Bool
is_connected c = elim (c.connection) [ none ↦ false | some _ ↦ true ]

-- The rounds of `for attempt := 0; attempt <= max; attempt++`.
abbrev pub rounds : ℤ → ℕ
rounds (pos n) = suc n
rounds (negsuc n) = 0

-- What SendMessage returns: a message, an error, or neither, if there is no round.
pub data Answer : Type 0 where
  response : Message → Answer
  error : String → Answer
  nothing : Answer

abbrev pub last_error : Option String → Answer
last_error none = nothing
last_error (some e) = error e

-- What a call of the client meets: its rounds, and the texts of protobuf's errors.
pub record Env : Type 0 where
  pub attempt : ℕ → Attempt
  pub marshal_error : String
  pub unmarshal_error : String

module _ (messages : Codec Message) where
  abbrev pub decoded : String → List ℕ → Answer
  decoded text payload = elim (messages.unmarshal payload) [
    | none ↦ error ("failed to unmarshal response: " ++ text)
    | some msg ↦ response msg
  ]

  -- The rounds that are left, from the round `k` on; `last` is the error of the round before.
  unfoldable pub send_rounds :
      (ℕ → Attempt) → String → Frame → ℕ → ℕ → Option String → Connection → Answer × Connection
  send_rounds env text frame zero k last conn = (last_error last, conn)
  send_rounds env text frame (suc n) k last conn =
      let (failure, sent) = write_frame (env k) frame conn in
      elim failure [
        | some e ↦ send_rounds env text frame n (k + 1) (some ("failed to send frame: " ++ e)) sent
        | none ↦
            let (got, conn') = read_response (env k) sent in
            elim got [
              | err e ↦
                  send_rounds env text frame n (k + 1) (some ("failed to read response: " ++ e))
                    conn'
              | ok f ↦ (decoded text f.payload, conn')
            ]
      ]

  unfoldable pub send_message : Env → Message → Client → Answer × Client
  send_message env msg c = elim (c.connection) [
    | none ↦ (error "not connected to POS", c)
    | some conn ↦ elim (messages.marshal msg) [
      | none ↦ (error ("failed to marshal message: " ++ env.marshal_error), c)
      | some bytes ↦
          let c' = next_sequence c in
          let (answer, conn') =
            send_rounds env.attempt env.unmarshal_error
              (new_frame frame_type_data c'.sequence bytes) (rounds c.config.max_retries) 0 none
              conn in
          (answer, record c' { connection = some conn' })
    ]
  ]

abbrev pong_error : Frame → Option String
pong_error f =
    if f.frame_type == frame_type_pong
    then none
    else some ("expected PONG, got frame type " ++ decimal f.frame_type)

unfoldable pub ping : Attempt → Client → Option String × Client
ping a c = elim (c.connection) [
  | none ↦ (some "not connected to POS", c)
  | some conn ↦
      let c' = next_sequence c in
      let (failure, sent) = write_frame a (new_frame frame_type_ping c'.sequence []) conn in
      elim failure [
        | some e ↦ (some ("failed to send ping: " ++ e), record c' { connection = some sent })
        | none ↦
            let (got, conn') = read_response a sent in
            elim got [
              | err e ↦ (some ("failed to read pong: " ++ e), record c' { connection = some conn' })
              | ok f ↦ (pong_error f, record c' { connection = some conn' })
            ]
      ]
]
