-- ===== src/Ecr/Client/Answers.antt =====
-- What SendMessage of ecr/client.go returns: the first frame that is unread, the terminal's answer on a
-- quiet connection, and an error once the writer has failed.
use termwire.Common.{
  ℕ, suc, ◌+◌, ◌^◌, ◌≤◌, ◌<◌, u16, ◌≡◌, refl, ap, ◌∙◌, String, List, ◌++◌, append_assoc, none, some,
  take, length, IsBytes,
}
use termwire.Ecr.Client.{Client, Env, Answer, error, decoded, rounds, send_message, send_rounds}
use termwire.Ecr.Client.Rounds.{
  failed_write, read_response_ok, send_rounds_broken, send_rounds_reads, send_rounds_write_fails,
  write_frame_broken, write_frame_fails, write_frame_ok,
}
use termwire.Ecr.Client.Sending.{frame, sends}
use termwire.Ecr.Client.Stream.{Connection}
use termwire.Frame.{Frame, new_frame, serialize, frame_type_data}
use termwire.Frame.Reader as Reader
use termwire.Frame.Reader.{IoError, read_frame}
use termwire.Frame.RoundTrip.{read_frame-new_frame}
use termwire.Message.{Message}
use termwire.Message.Codec.{Codec}

module _ (messages : Codec Message) (env : Env) (msg : Message) (c : Client) (conn : Connection)
    (bytes : List ℕ) (n : ℕ) (open_ : c.connection ≡ some conn)
    (encodes : messages.marshal msg ≡ some bytes) (runs : rounds c.config.max_retries ≡ suc n) where
  abbrev with_connection : Connection → Client
  with_connection k = record c { connection = some k; sequence = u16 (c.sequence + 1) }

  send_message_run :
      (a : Answer) (conn' : Connection)
      → send_rounds messages env.attempt env.unmarshal_error
          (frame messages env msg c conn bytes open_ encodes)
          (suc n)
          0
          none
          conn
        ≡ (a, conn')
      → send_message messages env msg c ≡ (a, with_connection conn')
  send_message_run a conn' e =
      sends messages env msg c conn bytes open_ encodes
      ∙ ap (λ (r : Answer × Connection). (r.0, with_connection (r.1))) (rw runs e)

  pub send_message_reads :
      (f : Frame) (rest : List ℕ)
      → (env.attempt 0).write_deadline_error ≡ none
      → (env.attempt 0).write_error ≡ none
      → (env.attempt 0).read_deadline_error ≡ none
      → conn.broken ≡ none
      → read_frame (env.attempt 0).ending (conn.unread ++ (env.attempt 0).arrives)
        ≡ (Reader.ok f, rest)
      → send_message messages env msg c ≡ (
        decoded messages env.unmarshal_error f.payload,
        with_connection (record conn {
          written =
              conn.written ++ serialize (new_frame frame_type_data (u16 (c.sequence + 1)) bytes);
          unread = rest;
        }),
      )
  send_message_reads f rest d w r b reads = send_message_run _ _ (
      send_rounds_reads messages env.attempt env.unmarshal_error _ n 0 none conn _ _ f
        (write_frame_ok (env.attempt 0) _ conn d w b)
        (read_response_ok (env.attempt 0) _ f rest r reads))

  -- An open connection still holds a whole DATA frame that was not read, as after a call whose read
  -- timed out and was tried again. The call's first write and read work, and it has a round. Then
  -- SendMessage returns what that frame decodes to, whatever message was sent and whatever sequence
  -- number the frame has, and the bytes that arrive for this call stay unread for the next.
  pub send_message_stale :
      (t q : ℕ) (p rest : List ℕ)
      → (env.attempt 0).write_deadline_error ≡ none
      → (env.attempt 0).write_error ≡ none
      → (env.attempt 0).read_deadline_error ≡ none
      → conn.broken ≡ none
      → conn.unread ≡ serialize (new_frame t q p) ++ rest
      → 1 ≤ t
      → t ≤ 4
      → q < 2 ^ 16
      → length p < 2 ^ 16
      → IsBytes p
      → (conn' : Connection) × (send_message messages env msg c
          ≡ (decoded messages env.unmarshal_error p, with_connection conn'))
        × (conn'.unread ≡ rest ++ (env.attempt 0).arrives)
  unfolding new_frame
  send_message_stale t q p rest d w r b stale lo hi hq hl hp = (
    _,
    send_message_reads (new_frame t q p) (rest ++ (env.attempt 0).arrives) d w r b (
        rw (stale, append_assoc (serialize (new_frame t q p)) rest (env.attempt 0).arrives)
          (read_frame-new_frame (env.attempt 0).ending (rest ++ (env.attempt 0).arrives) p t q lo hi
            hq hl hp)),
    refl,
  )

  pub send_message_broken :
      (e : String)
      → conn.broken ≡ some e
      → (y : String) × (send_message messages env msg c ≡ (error y, with_connection conn))
  send_message_broken e b =
      let f = frame messages env msg c conn bytes open_ encodes in
      let (x, w) = write_frame_broken (env.attempt 0) f conn e b in
      let (y, ends) =
        send_rounds_broken messages env.attempt env.unmarshal_error f n 1 (failed_write x) conn e
          b in
      (
        y,
        send_message_run (error y) conn (
            send_rounds_write_fails messages env.attempt env.unmarshal_error f n 0 none conn conn x
              w
            ∙ ends),
      )

module _ (messages : Codec Message) (env : Env) (msg : Message) (c : Client) (conn : Connection)
    (bytes : List ℕ) (n : ℕ) (open_ : c.connection ≡ some conn)
    (encodes : messages.marshal msg ≡ some bytes) (runs : rounds c.config.max_retries ≡ suc n) where
  -- The write of the first round fails. Then the call returns an error, however many rounds are left
  -- and whatever they meet, and so does the next call on that connection, which writes nothing.
  pub send_message_write_fails :
      (e : String) (env' : Env) (msg' : Message) (bytes' : List ℕ)
      → (env.attempt 0).write_deadline_error ≡ none
      → (env.attempt 0).write_error ≡ some e
      → conn.broken ≡ none
      → messages.marshal msg' ≡ some bytes'
      → let broken = record conn {
        written =
            conn.written
            ++ take
                (env.attempt 0).flushed
                (serialize (new_frame frame_type_data (u16 (c.sequence + 1)) bytes));
        broken = some e;
      } in
        let next = record c { connection = some broken; sequence = u16 (c.sequence + 1) } in
        (y : String) × (z : String) × (send_message messages env msg c ≡ (error y, next))
        × (send_message messages env' msg' next
            ≡ (error z, record next { sequence = u16 (next.sequence + 1) }))
  send_message_write_fails e env' msg' bytes' d w b encodes' =
      let frame = new_frame frame_type_data (u16 (c.sequence + 1)) bytes in
      let broken = record conn {
        written = conn.written ++ take (env.attempt 0).flushed (serialize frame);
        broken = some e;
      } in
      let (y, ends) =
        send_rounds_broken messages env.attempt env.unmarshal_error frame n 1 (failed_write e)
          broken e refl in
      let (z, later) =
        send_message_broken messages env' msg'
          (record c { connection = some broken; sequence = u16 (c.sequence + 1) }) broken bytes' n
          refl encodes' runs e refl in
      (
        y,
        z,
        send_message_run messages env msg c conn bytes n open_ encodes runs (error y) broken (
            send_rounds_write_fails messages env.attempt env.unmarshal_error frame n 0 none conn
              broken e (write_frame_fails (env.attempt 0) frame conn e d w b)
            ∙ ends),
        later,
      )
