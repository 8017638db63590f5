-- ===== src/Guest/Member/Laws.antt =====
-- What a guest leaves running.
use qomicex_connector_rust.Base.{ℕ, Bool, false, All, ◌≡◌, [], none}
use qomicex_connector_rust.Base.Result.{ok}
use qomicex_connector_rust.Json.{JsonApi}
use qomicex_connector_rust.Models.RoomCode.{RoomCode}
use qomicex_connector_rust.Guest.Joining.{Way, guest_config}
use qomicex_connector_rust.Guest.Member.{Member, Net, connect, leave_room}
use qomicex_connector_rust.EasyTier.Config.{Addresses, TomlConfig}
use qomicex_connector_rust.EasyTier.Instance.Lifecycle.{
  after_calls, IsTidy, start-IsTidy, stop-clear,
}

module _ (deletes : ℕ → Bool) where
  -- Whether a guest joins or not, EasyTier runs its manager's instance alone, and what it did not delete.
  pub connect-IsTidy :
      (J : JsonApi) (api : Addresses) (default : TomlConfig api) (net : Net api) (way : Way)
      (code : RoomCode) (m : Member)
      → m.easy_tier.instance_id ≡ none
      → IsTidy deletes m.easy_tier
      → IsTidy deletes (connect J api default net way code m).1.easy_tier
  unfolding connect
  connect-IsTidy J api default net way code m e t =
      start-IsTidy deletes api default net.startup
        (guest_config J m.profile m.easy_tier.node_id api.socket_addr (λ a. ok tt) way code)
        m.easy_tier e t

  -- A guest that has left holds no instance, and runs nothing but what EasyTier did not delete when it was
  -- asked to.
  pub record IsGone (m : Member) : Type 0 where
    pub no_instance : m.easy_tier.instance_id ≡ none
    pub nothing_else_runs : All (λ i. deletes i ≡ false) (after_calls deletes m.easy_tier.calls [])

  pub leave_room-IsGone : (m : Member) → IsTidy deletes m.easy_tier → IsGone (leave_room m)
  unfolding leave_room
  leave_room-IsGone m t =
      let (runs, id) = stop-clear deletes m.easy_tier t in
      record { no_instance = id; nothing_else_runs = runs }
