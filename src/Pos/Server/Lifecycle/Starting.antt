-- ===== src/Pos/Server/Lifecycle/Starting.antt =====
-- The command of pos/cmd/main.go up to a listening server: settings, NewServer and Start.
use Prim.Native.String.{String}
use termwire.Common.{
  ℕ, ◌≡◌, refl, sym, subst, ap, ◌∙◌, ◌⊎◌, inl, inr, true, false, str_eq, str_eq_iff, str_eq→ne,
  Option, none, some, arith, Bool-cases, Option-cases,
}
use termwire.Pos.Command.{Environment, get_env, load_config}
use termwire.Pos.Config.{Config}
use termwire.Pos.Db.{ok, Db}
use termwire.Pos.Db.Laws.{Outcome-cases}
use termwire.Pos.Server.Lifecycle.{
  Tls, Network, Server, new_message_handler, new_server, address, tls_settings, secure, start,
}

module _ (vars : Environment) where
  ca_named : ¬ ◌≡◌ {A = String} "certs/ca.crt" ""
  unfolding str_eq
  ca_named = str_eq→ne "certs/ca.crt" "" refl

  get_env_set : (key fallback : String) → ¬ (fallback ≡ "") → ¬ (get_env vars key fallback ≡ "")
  get_env_set key fallback given =
      unfold get_env in λ e. ground (arith, given, str_eq_iff (vars key) "")

  tls_by_environment : (load_config vars).tls_enabled ≡ str_eq (vars "POS_TLS_ENABLED") "true"
  tls_by_environment = elim (Bool-cases (str_eq (vars "POS_TLS_ENABLED") "true")) [
    | inl e ↦ unfold load_config in ground arith
    | inr e ↦ unfold load_config in ground arith
  ]

  ca_by_environment :
      str_eq (vars "POS_TLS_ENABLED") "true" ≡ true
      → (load_config vars).tls_ca_file ≡ get_env vars "POS_TLS_CA" "certs/ca.crt"
  ca_by_environment on = unfold load_config in ground arith

-- The settings under which a client must show a certificate.
abbrev pub strict : Tls
strict = record { min_version = "1.3"; requires_client_certificate = true }

-- The server's certificate was loaded, and the CA's file read and parsed.
abbrev pub IsChecked : Network → Type 0
IsChecked net = (net.certificate_error ≡ none) × (net.ca_error ≡ none) × (net.ca_parses ≡ true)

-- A server listens at an address; and the listener that Start leaves with TLS is the one asked for, or
-- none, when listening failed.
abbrev pub ListensAt : String → Server → Option Tls → Type 0
ListensAt at s tls = s.listener ≡ some (record { address = at; tls = tls })

abbrev pub ListensOrFails : Network → String → Server → Tls → Type 0
ListensOrFails net at s tls =
    ListensAt at s (some tls)
    ⊎ ((e : String) × (net.listen_error at (some tls) ≡ some e) × (s.listener ≡ none))

-- What a call of Start that returns no error has done.
module _ (net : Network) (s s' : Server) (started : start net s ≡ (none, s')) where
  abbrev at : String
  at = address s.config

  started_plain : s.config.tls_enabled ≡ false → ListensAt at s' none
  started_plain off = elim (Option-cases (net.listen_error at none)) [
    | inl e ↦ unfold start in ground arith
    | inr (x, e) ↦ absurd (unfold start in ground arith)
  ]

  started_tls : (tls : Tls) → secure net tls s ≡ (none, s') → ListensOrFails net at s' tls
  started_tls tls e = elim (Option-cases (net.listen_error at (some tls))) [
    | inl f ↦ inl (ground arith)
    | inr (x, f) ↦ inr (x, f, ground arith)
  ]

  settings_strict :
      (tls : Tls)
      → ¬ (s.config.tls_ca_file ≡ "")
      → tls_settings net s.config ≡ ok tls
      → IsChecked net × (tls ≡ strict)
  settings_strict tls has_ca e =
      unfold tls_settings in
      (
        (
          ground (arith, str_eq_iff s.config.tls_ca_file ""),
          ground (arith, str_eq_iff s.config.tls_ca_file ""),
          ground (arith, str_eq_iff s.config.tls_ca_file ""),
        ),
        ground (arith, str_eq_iff s.config.tls_ca_file ""),
      )

  started_secured :
      s.config.tls_enabled ≡ true
      → ¬ (s.config.tls_ca_file ≡ "")
      → IsChecked net × ListensOrFails net at s' strict
  started_secured on has_ca = elim (Outcome-cases (tls_settings net s.config)) [
    | inl (x, e) ↦ absurd (unfold start in ground arith)
    | inr (tls, e) ↦
        let (checked, same) = settings_strict tls has_ca e in
        (
          checked,
          subst (ListensOrFails net at s') same (started_tls tls (unfold start in ground arith)),
        )
  ]

new_server-config :
    (faults : ℕ → Option String) (config : Config) (db : Db) (s : Server)
    → new_server faults config db ≡ ok s
    → s.config ≡ config
unfolding new_server
new_server-config faults config db s e =
    elim (Outcome-cases (new_message_handler faults config db)) [
      | inl (x, f) ↦ absurd (ground arith)
      | inr (h, f) ↦ ground arith
    ]

-- At the address of the settings.
abbrev pub Listens : Environment → Server → Option Tls → Type 0
Listens vars = ListensAt (address (load_config vars))

module _ (vars : Environment) (faults : ℕ → Option String) (db : Db) (net : Network) (s s' : Server)
    (made : new_server faults (load_config vars) db ≡ ok s)
    (started : start net s ≡ (none, s')) where
  settings : s.config ≡ load_config vars
  settings = new_server-config faults (load_config vars) db s made

  has_ca : str_eq (vars "POS_TLS_ENABLED") "true" ≡ true → ¬ (s.config.tls_ca_file ≡ "")
  has_ca on e =
      get_env_set vars "POS_TLS_CA" "certs/ca.crt" (ca_named vars)
        (sym (ap (λ (c : Config). c.tls_ca_file) settings ∙ ca_by_environment vars on) ∙ e)

  is_enabled : s.config.tls_enabled ≡ str_eq (vars "POS_TLS_ENABLED") "true"
  is_enabled = ap (λ (c : Config). c.tls_enabled) settings ∙ tls_by_environment vars

  same_address : address s.config ≡ address (load_config vars)
  same_address = ap address settings

  -- The command makes its settings from the environment, NewServer makes a server with them, and
  -- Start returns no error. If POS_TLS_ENABLED is "true", the server's certificate was loaded and the
  -- CA's file read and parsed, whichever variables name the files, and the server listens at the
  -- address of the settings with TLS 1.3 and asks each client for a certificate of the CA; or
  -- listening so has failed, and Start, although it returns no error, leaves the server without a
  -- listener. With any other value it listens there without TLS.
  pub start-load_config :
      ((vars "POS_TLS_ENABLED" ≡ "true")
        × IsChecked net
        × ListensOrFails net (address (load_config vars)) s' strict)
      ⊎ ((¬ (vars "POS_TLS_ENABLED" ≡ "true")) × Listens vars s' none)
  start-load_config = elim (Bool-cases (str_eq (vars "POS_TLS_ENABLED") "true")) [
    | inl e ↦
        let (checked, listens) = started_secured net s s' started (is_enabled ∙ e) (has_ca e) in
        inl (
          (str_eq_iff (vars "POS_TLS_ENABLED") "true").0 e,
          checked,
          subst (λ a. ListensOrFails net a s' strict) same_address listens,
        )
    | inr e ↦ inr (
      str_eq→ne (vars "POS_TLS_ENABLED") "true" e,
      subst (λ a. ListensAt a s' none) same_address
          (started_plain net s s' started (is_enabled ∙ e)),
    )
  ]
