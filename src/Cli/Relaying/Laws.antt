-- ===== src/Cli/Relaying/Laws.antt =====
-- What the relay command does not look at.
use qomicex_connector_rust.Base.{ℕ, ◌≡◌, inl, inr, refl, Text, codes, Bool, List, ◌++◌}
use qomicex_connector_rust.Base.Result.{Result-cases}
use qomicex_connector_rust.EasyTier.Config.{Addresses, TomlConfig}
use qomicex_connector_rust.EasyTier.Instance.{Call}
use qomicex_connector_rust.Cli.{Fallible}
use qomicex_connector_rust.Cli.Relaying.{
  Relay, new_relay, Library, listener, configured, until_stopped, run_relay,
}

-- Without the number of sleeps.
abbrev pub seen_of : Fallible (Unit {0}) × Relay → Fallible (Unit {0}) × List Text × List Call
seen_of (r, relay) = (r, relay.console, relay.calls)

module _ (api : Addresses) (default : TomlConfig api) (url_error : Text → Text)
    (lib : Library (TomlConfig api)) where
  until_stopped_same :
      (ready : ℕ → Bool) (seconds : ℕ)
      → until_stopped api default url_error (record lib { ready = ready }) seconds
        ≡ until_stopped api default url_error lib seconds
  unfolding until_stopped
  until_stopped_same ready seconds = refl

  -- What the relay command prints, asks of EasyTier and returns is the same whether its instance ever
  -- gets ready or not.
  pub run_relay-unready :
      (ready : ℕ → Bool) (listen : Text) (seconds : ℕ)
      → seen_of
          (run_relay api default url_error (record lib { ready = ready }) listen seconds new_relay)
        ≡ seen_of (run_relay api default url_error lib listen seconds new_relay)
  unfolding run_relay
  run_relay-unready ready listen seconds =
      elim (Result-cases (listener api default url_error (codes "tcp://" ++ listen))) [
        | inr (e, r) ↦ rw r refl
        | inl (tcp, r) ↦
            elim (Result-cases (listener api default url_error (codes "udp://" ++ listen))) [
              | inr (e, q) ↦ rw (r, q) refl
              | inl (udp, q) ↦
                  elim (Result-cases
                    (lib.run_network_instance (configured api default url_error tcp udp))) [
                      | inr (e, l) ↦ rw (r, q, l) refl
                      | inl (id, l) ↦
                          elim (Result-cases (until_stopped api default url_error lib seconds)) [
                            | inr (e, s) ↦ rw (r, q, l, until_stopped_same ready seconds, s) refl
                            | inl (u, s) ↦ elim (Result-cases lib.delete_network_instances) [
                              | inr (e, d) ↦
                                  rw (r, q, l, until_stopped_same ready seconds, s, d) refl
                              | inl (u', d) ↦
                                  rw (r, q, l, until_stopped_same ready seconds, s, d) refl
                            ]
                          ]
                    ]
            ]
      ]
