-- ===== src/Center/Host/Peers.antt =====
-- What `ScaffoldingCenter` passes on to its EasyTier manager while its room is open: the nodes, and the
-- operations on peers.
use qomicex_connector_rust.Base.{ℕ, Text, Bool, List, [], ◌∷◌, Option, some}
use qomicex_connector_rust.Base.Result.{Result}
use qomicex_connector_rust.Error.{Outcome}
use qomicex_connector_rust.Models.Network.{EasyTierNode}
use qomicex_connector_rust.Models.Player.{PlayerInfo}
use qomicex_connector_rust.Center.Room.{Shared, CenterConfig}
use qomicex_connector_rust.Center.Host.{Host, close_host}
use qomicex_connector_rust.Center.Host.Laws.{IsClosed, close_host-IsClosed}
use qomicex_connector_rust.EasyTier.Instance.{EasyTierManager, Instance, get_nodes}
use qomicex_connector_rust.EasyTier.Instance.Lifecycle.{IsTidy}
use qomicex_connector_rust.EasyTier.Peers.Tidy.{
  disconnect_peer-IsTidy, deny_peer-IsTidy, allow_peer-IsTidy,
}
use qomicex_connector_rust.EasyTier.Peers as Peers

-- `set_player_ping_handler`, before the start.
unfoldable pub set_player_ping_handler :
    {C : Type 0} → (PlayerInfo → Shared C → Bool × Shared C) → CenterConfig C → CenterConfig C
set_player_ping_handler handler c = record c { player_ping_handler = some handler }

-- `self.easy_tier.lock().await` and an operation on it.
unfoldable pub on_easy_tier :
    {C R : Type 0} → (EasyTierManager → R × EasyTierManager) → Host C → R × Host C
on_easy_tier f h = let (r, m) = f h.easy_tier in (r, record h { easy_tier = m })

unfoldable pub easy_tier_nodes : {C : Type 0} → (ℕ → Option Instance) → Host C → List EasyTierNode
easy_tier_nodes instance h = get_nodes instance h.easy_tier

module _ {C : Type 0} (instance : ℕ → Option Instance) (peer_id : Text → Result Text ℕ) where
  unfoldable pub center_disconnect_peer :
      Result Text (Unit {0}) → Text → Host C → Outcome (Unit {0}) × Host C
  unfolding on_easy_tier
  center_disconnect_peer answer peer =
      on_easy_tier (Peers.disconnect_peer instance peer_id answer peer)

  unfoldable pub center_deny_peer :
      Result Text (Unit {0}) → Text → Host C → Outcome (Unit {0}) × Host C
  unfolding on_easy_tier
  center_deny_peer answer peer = on_easy_tier (Peers.deny_peer instance peer_id answer peer)

  unfoldable pub center_allow_peer : Text → Host C → Outcome (Unit {0}) × Host C
  unfolding on_easy_tier
  center_allow_peer peer = on_easy_tier (Peers.allow_peer instance peer_id peer)

-- A center's operations on peers.
pub data Operation : Type 0 where
  disconnecting : (answer : Result Text (Unit {0})) (peer : Text) → Operation
  denying : (answer : Result Text (Unit {0})) (peer : Text) → Operation
  allowing : (peer : Text) → Operation

module _ {C : Type 0} (instance : ℕ → Option Instance) (peer_id : Text → Result Text ℕ) where
  unfoldable pub operate : Operation → Host C → Outcome (Unit {0}) × Host C
  operate (disconnecting answer peer) h = center_disconnect_peer instance peer_id answer peer h
  operate (denying answer peer) h = center_deny_peer instance peer_id answer peer h
  operate (allowing peer) h = center_allow_peer instance peer_id peer h

  unfoldable pub operate_all : List Operation → Host C → Host C
  operate_all [] h = h
  operate_all (o ∷ os) h = operate_all os (operate o h).1

module _ (deletes : ℕ → Bool) {C : Type 0} (instance : ℕ → Option Instance)
    (peer_id : Text → Result Text ℕ) where
  operate-IsTidy :
      (o : Operation) (h : Host C)
      → IsTidy deletes h.easy_tier
      → IsTidy deletes (operate instance peer_id o h).1.easy_tier
  unfolding operate center_disconnect_peer center_deny_peer center_allow_peer
  operate-IsTidy (disconnecting answer peer) h t =
      disconnect_peer-IsTidy deletes instance peer_id peer answer h.easy_tier t
  operate-IsTidy (denying answer peer) h t =
      deny_peer-IsTidy deletes instance peer_id peer answer h.easy_tier t
  operate-IsTidy (allowing peer) h t = allow_peer-IsTidy deletes instance peer_id peer h.easy_tier t

  operate_all-IsTidy :
      (os : List Operation) (h : Host C)
      → IsTidy deletes h.easy_tier
      → IsTidy deletes (operate_all instance peer_id os h).easy_tier
  unfolding operate_all
  operate_all-IsTidy [] h t = t
  operate_all-IsTidy (o ∷ os) h t =
      operate_all-IsTidy os (operate instance peer_id o h).1 (operate-IsTidy o h t)

  -- A center whose EasyTier runs its own instance alone is taken down by its close, whatever peers were
  -- disconnected, denied and allowed before, with any answers of the library and any peer ids.
  pub operate_all-IsClosed :
      (os : List Operation) (h : Host C)
      → IsTidy deletes h.easy_tier
      → IsClosed deletes (close_host (operate_all instance peer_id os h))
  operate_all-IsClosed os h t =
      (close_host-IsClosed deletes (operate_all instance peer_id os h)
        (operate_all-IsTidy os h t)).0
