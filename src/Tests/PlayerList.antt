-- ===== src/Tests/PlayerList.antt =====
-- The player list at concrete inputs.
use qomicex_connector_rust.Base.{
  ℕ, ◌<◌, ◌≡◌, refl, codes, false, List, [], ◌∷◌, some, text_eq, ltb, arith,
}
use qomicex_connector_rust.Models.Player.{PlayerInfo}
use qomicex_connector_rust.Center.Players.{
  Players, send_snapshot, on_player_ping_impl, on_client_disconnected_impl, get_players,
}
use qomicex_connector_rust.Center.Players.Locking.{
  lock_retry_limit, on_player_ping_locked, on_client_disconnected_locked, get_players_locked,
  locked_lem, on_player_ping_locked-taken,
}
use qomicex_connector_rust.Center.Players.Laws.{HasDistinctIds}
use qomicex_connector_rust.Center.Players.History.{
  pinged, disconnected, removed, history, subscribed, unsubscribed, Event, IsHosted,
  history-IsHosted,
}
use qomicex_connector_rust.Tests.Setting.{host_player, guest_player}

abbrev two_players : List PlayerInfo
two_players = host_player ∷ guest_player ∷ []

two_players-HasDistinctIds : HasDistinctIds two_players
unfolding text_eq
two_players-HasDistinctIds = ((refl, tt), (tt, tt))

abbrev hosted : Players
hosted = record { list = two_players; receivers = 1; notified = some two_players }

hosted-IsHosted : IsHosted (codes "m0") hosted
unfolding text_eq
hosted-IsHosted = record {
  distinct = two_players-HasDistinctIds;
  listed = (host_player, refl, refl);
}

-- A second receiver comes and goes.
abbrev watched_events : List Event
watched_events = subscribed ∷ pinged guest_player ∷ unsubscribed ∷ removed (codes "m1") ∷ []

history-IsHosted_example :
    IsHosted
      (codes "m0")
      (history (pinged guest_player ∷ disconnected (codes "m0") ∷ removed (codes "m1") ∷ []) hosted)
history-IsHosted_example =
    history-IsHosted (codes "m0")
      (pinged guest_player ∷ disconnected (codes "m0") ∷ removed (codes "m1") ∷ []) hosted
      hosted-IsHosted

ltb_above : (j : ℕ) → j < lock_retry_limit → ltb 20000 j ≡ false
ltb_above j h = ground arith

locked_lem_example :
    (on_player_ping_locked (λ i. ltb 2 i) (λ i. ltb 9998 i) guest_player hosted
      ≡ on_player_ping_impl guest_player hosted)
    × (on_client_disconnected_locked (λ i. ltb 2 i) (λ i. ltb 9998 i) (some (codes "m1")) hosted
        ≡ on_client_disconnected_impl (some (codes "m1")) hosted)
    × (get_players_locked (λ i. ltb 9998 i) hosted ≡ get_players hosted)
locked_lem_example =
    locked_lem (λ i. ltb 2 i) (λ i. ltb 9998 i) 3 9999 guest_player (some (codes "m1")) hosted
      (omega arith) (omega arith) refl refl

on_player_ping_locked-taken_example :
    on_player_ping_locked (λ i. ltb 20000 i) (λ i. ltb 20000 i) guest_player hosted
    ≡ send_snapshot [] hosted
on_player_ping_locked-taken_example =
    on_player_ping_locked-taken (λ i. ltb 20000 i) (λ i. ltb 20000 i) guest_player hosted
      (λ j h. ltb_above j h) (λ j h. ltb_above j h)
