-- ===== src/Ecr/Client/Sending.antt =====
-- SendMessage of ecr/client.go: what is written, what is read, and what a writer that failed does.
use termwire.Common.{
  ℕ, zero, suc, ◌+◌, ◌≤◌, u16, ◌≡◌, refl, sym, ap, ◌∙◌, ◌⊎◌, inl, inr, subst, String, List, ◌++◌,
  append_assoc, append-nil, Option, none, some, take, arith, Option-cases,
}
use termwire.Ecr.Client.{Client, Env, Answer, rounds, send_rounds, send_message}
use termwire.Ecr.Client.Rounds.{
  copies, failed_read, failed_write, read_response-written, send_rounds_broken,
  send_rounds_read_fails, send_rounds_reads, send_rounds_write_fails,
}
use termwire.Ecr.Client.Stream.{Connection, Attempt, write_frame, read_response}
use termwire.Frame.{Frame, new_frame, serialize, frame_type_data}
use termwire.Go.Outcome.{Outcome-cases}
use termwire.Message.{Message}
use termwire.Message.Codec.{Codec}

-- Some whole copies of `bytes`, at most `n`, and at most a part of one more, behind `before`.
abbrev pub IsRepeated : ℕ → List ℕ → List ℕ → List ℕ → Type 0
IsRepeated n bytes before after =
    (j : ℕ) × (m : ℕ) × (j ≤ n) × (after ≡ before ++ (copies j bytes ++ take m bytes))

none_sent : (n : ℕ) (bytes before : List ℕ) → IsRepeated n bytes before before
none_sent n bytes before = (0, 0, omega arith, sym (append-nil before))

one_more :
    (n : ℕ) (bytes before after : List ℕ)
    → IsRepeated n bytes (before ++ bytes) after
    → IsRepeated (suc n) bytes before after
one_more n bytes before after (j, m, le, e) = (
  suc j,
  m,
  omega (arith, le),
  e
      ∙ append_assoc before bytes _
      ∙ ap (λ t. before ++ t) (sym (append_assoc bytes (copies j bytes) _)),
)

widen :
    (n : ℕ) (bytes before after : List ℕ)
    → IsRepeated n bytes before after
    → IsRepeated (suc n) bytes before after
widen n bytes before after (j, m, le, e) = (j, m, omega (arith, le), e)

module _ (messages : Codec Message) (env : ℕ → Attempt) (text : String) (frame : Frame) where
  abbrev IsSent : ℕ → Connection → Connection → Type 0
  IsSent n conn conn' = IsRepeated n (serialize frame) conn.written conn'.written

  -- A write that fails leaves the writer as it was, or broken with a part of the frame sent.
  write_cases :
      (k : ℕ) (conn : Connection)
      → ((e : String) × (write_frame (env k) frame conn ≡ (some e, conn)))
        ⊎ (((e : String) × (write_frame (env k) frame conn ≡ (
          some e,
          record conn {
            written = conn.written ++ take (env k).flushed (serialize frame);
            broken = some e;
          },
        )))
            ⊎ (write_frame (env k) frame conn
                ≡ (none, record conn { written = conn.written ++ serialize frame })))
  unfolding write_frame
  write_cases k conn = elim (Option-cases ((env k).write_deadline_error)) [
    | inr (e, d) ↦ inl (e, ground arith)
    | inl d ↦ elim (Option-cases (conn.broken)) [
      | inr (e, b) ↦ inl (e, ground arith)
      | inl b ↦ elim (Option-cases ((env k).write_error)) [
        | inr (e, w) ↦ inr (inl (e, ground arith))
        | inl w ↦ inr (inr (ground arith))
      ]
    ]
  ]

  abbrev IsSentBy : ℕ → Connection → Answer × Connection → Type 0
  IsSentBy n conn r = IsSent n conn r.1

  -- The write went well: a response ends the call, and an error of the read leaves the other rounds.
  read-IsSent :
      (n k : ℕ) (last : Option String) (conn : Connection)
      → ((last' : Option String) (conn' : Connection)
          → IsSentBy n conn' (send_rounds messages env text frame n (k + 1) last' conn'))
      → let sent = record conn { written = conn.written ++ serialize frame } in
        write_frame (env k) frame conn ≡ (none, sent)
        → IsSentBy (suc n) conn (send_rounds messages env text frame (suc n) k last conn)
  read-IsSent n k last conn ih w =
      let sent = record conn { written = conn.written ++ serialize frame } in
      let r = read_response (env k) sent in
      let kept = (read_response-written (env k) sent).0 in
      let left = λ (e : String).
        send_rounds messages env text frame n (k + 1) (some (failed_read e)) (r.1) in
      elim (Outcome-cases (r.0)) [
        | inl (e, q) ↦
            subst (IsSentBy (suc n) conn)
              (sym (
                send_rounds_read_fails messages env text frame n k last conn sent (r.1) e w
                  (ap (λ x. (x, r.1)) q)))
              (one_more n (serialize frame) conn.written _ (
                subst (λ x. IsRepeated n (serialize frame) x (left e).1.written) kept
                  (ih (some (failed_read e)) (r.1))))
        | inr (f, q) ↦
            subst (IsSentBy (suc n) conn)
              (sym (
                send_rounds_reads messages env text frame n k last conn sent (r.1) f w
                  (ap (λ x. (x, r.1)) q)))
              (one_more n (serialize frame) conn.written _ (
                subst (λ x. IsRepeated n (serialize frame) (sent.written) x) (sym kept)
                  (none_sent n (serialize frame) (sent.written))))
      ]

  send_rounds-IsSent :
      (n k : ℕ) (last : Option String) (conn : Connection)
      → IsSentBy n conn (send_rounds messages env text frame n k last conn)
  send_rounds-IsSent zero k last conn =
      unfold send_rounds in none_sent 0 (serialize frame) conn.written
  send_rounds-IsSent (suc n) k last conn = elim (write_cases k conn) [
    | inl (e, w) ↦
        subst (IsSentBy (suc n) conn)
          (sym (send_rounds_write_fails messages env text frame n k last conn conn e w))
          (widen n (serialize frame) conn.written _ (send_rounds-IsSent n (k + 1) _ conn))
    | inr (inl (e, w)) ↦
        let broken = record conn {
          written = conn.written ++ take (env k).flushed (serialize frame);
          broken = some e;
        } in
        let (y, b) =
          send_rounds_broken messages env text frame n (k + 1) (failed_write e) broken e refl in
        subst (IsSentBy (suc n) conn)
          (sym (send_rounds_write_fails messages env text frame n k last conn broken e w ∙ b))
          (0, (env k).flushed, omega arith, refl)
    | inr (inr w) ↦
        read-IsSent n k last conn (λ last' conn'. send_rounds-IsSent n (k + 1) last' conn') w
  ]

module _ (messages : Codec Message) (env : Env) (msg : Message) (c : Client) (conn : Connection)
    (bytes : List ℕ) (open_ : c.connection ≡ some conn)
    (encodes : messages.marshal msg ≡ some bytes) where
  abbrev pub frame : Frame
  frame = new_frame frame_type_data (u16 (c.sequence + 1)) bytes

  abbrev pub run : Answer × Connection
  run =
      send_rounds messages env.attempt env.unmarshal_error frame (rounds c.config.max_retries) 0
        none conn

  pub sends :
      send_message messages env msg c
      ≡ (run.0, record c { connection = some (run.1); sequence = u16 (c.sequence + 1) })
  unfolding send_message
  sends = ground arith

  -- One call of SendMessage on an open connection writes whole copies of one DATA frame with the
  -- client's next sequence number, at most one for each round, and behind them at most a part of one
  -- more copy, whatever fails; the connection stays, and the sequence number is counted up once.
  pub send_message-written :
      let c' = (send_message messages env msg c).1 in
      (conn' : Connection) × (c'.connection ≡ some conn')
      × IsRepeated (rounds c.config.max_retries) (serialize frame) conn.written conn'.written
      × (c'.sequence ≡ u16 (c.sequence + 1))
  send_message-written = rw sends (
    run.1,
    refl,
    send_rounds-IsSent messages env.attempt env.unmarshal_error frame (rounds c.config.max_retries)
        0 none conn,
    refl,
  )
