-- ===== src/Ecr/Client/Lifecycle.antt =====
-- The connection of the register's client: connecting, disconnecting, and calls without a connection.
use termwire.Common.{
  ◌≡◌, refl, sym, subst, ◌∙◌, ◌⊎◌, inl, inr, true, false, String, Option, none, some, arith,
  Option-cases, Bool-cases,
}
use termwire.Ecr.Client.{Client, Dial, Tls, connect, open_connection, tls_settings, is_connected}
use termwire.Ecr.Client.Stream.{fresh_connection}
use termwire.Go.Outcome.{ok, err, Outcome-cases}

absurd_some :
    (x : String) (c c' : Client) → ◌≡◌ {A = Option String × Client} (some x, c) (none, c') → ⊥
absurd_some x c c' e = cc

module _ (d : Dial) (c c' : Client) where
  -- How a call of Connect that returns no error has dialled.
  abbrev pub IsDialled : Type 0
  IsDialled =
      ((c.config.tls_enabled ≡ false) × (d.dial_error none ≡ none))
      ⊎ ((c.config.tls_enabled ≡ true)
          × (tls : Tls) × (tls_settings d c.config ≡ ok tls)
          × (d.dial_error (some tls) ≡ none))

  abbrev connected : Client
  connected = record c { connection = some fresh_connection }

  dialled :
      (dial : Option Tls)
      → open_connection (d.dial_error dial) c ≡ (none, c')
      → (d.dial_error dial ≡ none) × (c' ≡ connected)
  dialled dial e = elim (Option-cases (d.dial_error dial)) [
    | inl q ↦ (q, sym (ground arith))
    | inr (x, q) ↦ absurd (ground arith)
  ]

  idle : connect d c ≡ (none, c') → c.connection ≡ none
  idle e = elim (Option-cases (c.connection)) [
    | inl q ↦ q
    | inr (conn, q) ↦ absurd (unfold connect in ground arith)
  ]

  plain :
      c.connection ≡ none
      → c.config.tls_enabled ≡ false
      → connect d c ≡ open_connection (d.dial_error none) c
  plain e off = unfold connect in ground arith

  secured :
      (tls : Tls)
      → c.connection ≡ none
      → c.config.tls_enabled ≡ true
      → tls_settings d c.config ≡ ok tls
      → connect d c ≡ open_connection (d.dial_error (some tls)) c
  secured tls e on settings = unfold connect in ground arith

  unsettled :
      (x : String)
      → c.connection ≡ none
      → c.config.tls_enabled ≡ true
      → tls_settings d c.config ≡ err x
      → connect d c ≡ (some x, c)
  unsettled x e on settings = unfold connect in ground arith

  connect_dialled : connect d c ≡ (none, c') → IsDialled × (c' ≡ connected)
  connect_dialled e = elim (Bool-cases (c.config.tls_enabled)) [
    | inr off ↦ let (q, same) = dialled none (sym (plain (idle e) off) ∙ e) in (inl (off, q), same)
    | inl on ↦ elim (Outcome-cases (tls_settings d c.config)) [
      | inl (x, settings) ↦ absurd (absurd_some x c c' (sym (unsettled x (idle e) on settings) ∙ e))
      | inr (tls, settings) ↦
          let (q, same) = dialled (some tls) (sym (secured tls (idle e) on settings) ∙ e) in
          (inr (on, tls, settings, q), same)
    ]
  ]

  -- Connect returns no error. Then the client was not connected, the dial went well, through TLS with
  -- the settings of the configuration if and only if TLS is on, and the client is as before but for a
  -- fresh connection; a second Connect is refused and changes nothing.
  pub connect-IsDialled :
      (d' : Dial)
      → connect d c ≡ (none, c')
      → (is_connected c ≡ false)
        × IsDialled
        × (c' ≡ connected)
        × (connect d' c' ≡ (some "already connected", c'))
  connect-IsDialled d' e =
      let (how, same) = connect_dialled e in
      (
        unfold is_connected in rw (idle e) refl,
        how,
        same,
        subst (λ x. connect d' x ≡ (some "already connected", x)) (sym same)
            (unfold connect in refl),
      )
