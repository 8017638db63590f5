-- ===== src/Cli/Main/Laws.antt =====
-- What a run of the command line leaves behind.
use qomicex_connector_rust.Base.{ℕ, Bool, ◌≡◌, [], All}
use qomicex_connector_rust.Center.Host.Laws.{IsClosed}
use qomicex_connector_rust.Guest.Member.Laws.{IsGone}
use qomicex_connector_rust.Cli.Session.{Session}
use qomicex_connector_rust.Cli.Main.{Finished}

module _ (deletes : ℕ → Bool) where
  -- The client of a run manages nothing more, and all that it managed is taken down, also a guest that
  -- failed to join.
  pub record IsDown (f : Finished) : Type 0 where
    pub centers : All (IsClosed deletes) f.closed_centers
    pub guests : All (IsGone deletes) f.closed_guests
    pub failed_guests : All (IsGone deletes) f.session.client.abandoned_guests
    pub no_centers : f.session.client.managed_centers ≡ []
    pub no_guests : f.session.client.managed_guests ≡ []
