-- ===== src/Ecr/Client/Returns.antt =====
-- SendMessage of ecr/client.go returns a response or an error once it has a round.
use Prim.Native.String.{◌++◌}
use termwire.Common.{
  ◌≡◌, refl, Option-cases, inl, inr, ap, String, ℕ, zero, suc, ◌+◌, arith, List, Option, none, some,
}
use termwire.Common.Int.{pos}
use termwire.Ecr.Client.{
  Client, Env, Answer, response, error, nothing, decoded, send_message, send_rounds,
}
use termwire.Ecr.Client.Stream.{Connection, Attempt, write_frame, read_response}
use termwire.Ecr.Client.Rounds.{send_rounds_read_fails, send_rounds_reads, send_rounds_write_fails}
use termwire.Ecr.Client.Sending.{sends}
use termwire.Frame.{Frame}
use termwire.Go.Outcome.{Outcome-cases}
use termwire.Message.{Message}
use termwire.Message.Codec.{Codec}

abbrev pub IsAnswer : Answer → Type 0
IsAnswer (response msg) = Unit
IsAnswer (error e) = Unit
IsAnswer nothing = ⊥

module _ (messages : Codec Message) where
  decoded-IsAnswer : (text : String) (payload : List ℕ) → IsAnswer (decoded messages text payload)
  decoded-IsAnswer text payload = elim (Option-cases (messages.unmarshal payload)) [
    | inl e ↦ rw (decoded, e) tt
    | inr (msg, e) ↦ rw (decoded, e) tt
  ]

  module _ (env : ℕ → Attempt) (text : String) (frame : Frame) where
    one_round :
        (n k : ℕ) (last : Option String) (conn : Connection)
        → ((e : String) (conn' : Connection)
            → IsAnswer (send_rounds messages env text frame n (k + 1) (some e) conn').0)
        → IsAnswer (send_rounds messages env text frame (suc n) k last conn).0
    one_round n k last conn ih =
        let sent = (write_frame (env k) frame conn).1 in
        let read = read_response (env k) sent in
        elim (Option-cases ((write_frame (env k) frame conn).0)) [
          | inr (x, w) ↦
              rw
                (send_rounds_write_fails messages env text frame n k last conn sent x
                  (ap (λ o. (o, sent)) w))
                (ih _ sent)
          | inl w ↦ elim (Outcome-cases (read.0)) [
            | inl (e, r) ↦
                rw
                  (send_rounds_read_fails messages env text frame n k last conn sent (read.1) e
                    (ap (λ o. (o, sent)) w) (ap (λ o. (o, read.1)) r))
                  (ih _ (read.1))
            | inr (f, r) ↦
                rw
                  (send_rounds_reads messages env text frame n k last conn sent (read.1) f
                    (ap (λ o. (o, sent)) w) (ap (λ o. (o, read.1)) r))
                  (decoded-IsAnswer text f.payload)
          ]
        ]

    -- Once a round has failed, the loop ends in a response or in an error.
    failing :
        (n k : ℕ) (e : String) (conn : Connection)
        → IsAnswer (send_rounds messages env text frame n k (some e) conn).0
    failing zero k e conn = unfold send_rounds in tt
    failing (suc n) k e conn = one_round n k (some e) conn (λ e' conn'. failing n (k + 1) e' conn')

  module _ (env : Env) (msg : Message) (c : Client) where
    offline :
        c.connection ≡ none → send_message messages env msg c ≡ (error "not connected to POS", c)
    offline e = unfold send_message in ground arith

    unencoded :
        (conn : Connection)
        → c.connection ≡ some conn
        → messages.marshal msg ≡ none
        → send_message messages env msg c
          ≡ (error ("failed to marshal message: " ++ env.marshal_error), c)
    unencoded conn e m = unfold send_message in ground arith

    -- SendMessage keeps the configuration, and returns a response or an error if it has a round.
    abbrev pub IsKept : Answer × Client → Type 0
    IsKept r = IsAnswer (r.0) × (r.1.config ≡ c.config)

    pub send_message-IsKept :
        (n : ℕ) → c.config.max_retries ≡ pos n → IsKept (send_message messages env msg c)
    send_message-IsKept n r = elim (Option-cases (c.connection)) [
      | inl e ↦ rw (offline e) (tt, refl)
      | inr (conn, e) ↦ elim (Option-cases (messages.marshal msg)) [
        | inl m ↦ rw (unencoded conn e m) (tt, refl)
        | inr (bytes, m) ↦ rw (sends messages env msg c conn bytes e m) (
          rw r (
              one_round env.attempt env.unmarshal_error _ n 0 none conn
                (λ e' conn'. failing env.attempt env.unmarshal_error _ n 1 e' conn')),
          refl,
        )
      ]
    ]
