-- ===== src/Center/Players/Refinement.antt =====
-- The player list as a table: what a machine id stands for, without the order of the entries.
use qomicex_connector_rust.Base.{
  ◌≡◌, refl, sym, ap, ◌∙◌, subst, Text, List, [], ◌∷◌, Option, some, arith, text_eq, if◌then◌else◌,
  is_empty,
}
use qomicex_connector_rust.Models.Player.{PlayerInfo}
use qomicex_connector_rust.Center.Players.{
  Players, send_snapshot, notify_players_changed, players_changed_rx, drop_receiver, drop_player,
  upsert, on_player_ping_impl, on_client_disconnected_impl, on_disconnect_event, remove_player,
  handle_player_ping,
}
use qomicex_connector_rust.Center.Players.Laws.{
  find_player, HasDistinctIds, joined, stays, find_player-upsert, upsert-HasDistinctIds,
  find_player-drop_player, drop_player-HasDistinctIds,
}
use qomicex_connector_rust.Center.Players.History.{
  Event, pinged, disconnected, removed, subscribed, unsubscribed, step, history, send_snapshot_kept,
}

-- The player of each machine id.
abbrev pub Table : Type 0
Table = Text → Option PlayerInfo

abbrev pub table_of : Players → Table
table_of p mid = find_player mid p.list

-- A ping sets the entry of its machine id, to what it makes of the entry before.
unfoldable pub set_player : PlayerInfo → Table → Table
set_player info t mid =
    if text_eq info.machine_id mid then some (joined info (t info.machine_id)) else t mid

-- A departure clears the entry of its machine id, unless it is the host's.
unfoldable pub clear_player : Text → Table → Table
clear_player other t mid = if text_eq other mid then stays (t mid) else t mid

unfoldable pub table_step : Event → Table → Table
table_step (pinged info) t = set_player info t
table_step (disconnected other) t = if is_empty other then t else clear_player other t
table_step (removed other) t = clear_player other t
table_step subscribed t = t
table_step unsubscribed t = t

unfoldable pub table_history : List Event → Table → Table
table_history [] t = t
table_history (e ∷ es) t = table_history es (table_step e t)

-- A list that shows the table, and no machine id twice.
pub record Shows (p : Players) (t : Table) : Type 0 where
  pub distinct : HasDistinctIds p.list
  pub entries : (mid : Text) → find_player mid p.list ≡ t mid

send_snapshot-Shows :
    (list : List PlayerInfo) (p : Players) (t : Table) → Shows p t → Shows (send_snapshot list p) t
send_snapshot-Shows list p t s =
    let same = (send_snapshot_kept list p).0 in
    record {
      distinct = subst HasDistinctIds (sym same) s.distinct;
      entries = λ mid. ap (find_player mid) same ∙ s.entries mid;
    }

ping-Shows :
    (info : PlayerInfo) (p : Players) (t : Table)
    → Shows p t
    → Shows (on_player_ping_impl info p) (set_player info t)
unfolding on_player_ping_impl notify_players_changed set_player
ping-Shows info p t s =
    send_snapshot-Shows (upsert info p.list) (record p { list = upsert info p.list })
      (set_player info t)
      (record {
        distinct = upsert-HasDistinctIds info p.list s.distinct;
        entries = λ mid.
            ground
              (arith, find_player-upsert mid info p.list, s.entries mid, s.entries info.machine_id);
      })

leave-Shows :
    (other : Text) (p : Players) (t : Table)
    → Shows p t
    → Shows (on_client_disconnected_impl (some other) p) (clear_player other t)
unfolding on_client_disconnected_impl notify_players_changed clear_player
leave-Shows other p t s =
    send_snapshot-Shows (drop_player other p.list) (record p { list = drop_player other p.list })
      (clear_player other t)
      (record {
        distinct = drop_player-HasDistinctIds other p.list s.distinct;
        entries = λ mid.
            ground (arith, find_player-drop_player mid other p.list s.distinct, s.entries mid);
      })

step-Shows : (e : Event) (p : Players) (t : Table) → Shows p t → Shows (step e p) (table_step e t)
unfolding step on_disconnect_event remove_player handle_player_ping table_step
    on_client_disconnected_impl notify_players_changed players_changed_rx drop_receiver
step-Shows (pinged info) p t s = ping-Shows info p t s
step-Shows (removed other) p t s = leave-Shows other p t s
step-Shows (disconnected []) p t s = send_snapshot-Shows p.list p t s
step-Shows subscribed p t s = record { distinct = s.distinct; entries = s.entries }
step-Shows unsubscribed p t s = record { distinct = s.distinct; entries = s.entries }
step-Shows (disconnected (c ∷ other)) p t s = leave-Shows (c ∷ other) p t s

history-Shows :
    (es : List Event) (p : Players) (t : Table)
    → Shows p t
    → Shows (history es p) (table_history es t)
unfolding history table_history
history-Shows [] p t s = s
history-Shows (e ∷ es) p t s = history-Shows es (step e p) (table_step e t) (step-Shows e p t s)

-- From a list without a machine id twice on, any pings, disconnects and removals change the list as
-- they change the table: a machine id then stands for what the table has for it.
pub history-table_history :
    (es : List Event) (p : Players) (mid : Text)
    → HasDistinctIds p.list
    → find_player mid (history es p).list ≡ table_history es (table_of p) mid
history-table_history es p mid d =
    (history-Shows es p (table_of p) (record { distinct = d; entries = λ mid. refl })).entries mid
