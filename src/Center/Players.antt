-- ===== src/Center/Players.antt =====
-- The player list of crates/qomicex-connector/src/center/scaffolding_center.rs. An update runs under
-- the list's lock, which no task keeps across a wait, so it is one step here; Players/Locking has the
-- attempts at the lock.
pub mod Laws
pub mod History
pub mod Refinement
pub mod Locking
use qomicex_connector_rust.Base.{
  ℕ, suc, ◌-◌, ◌==◌, Text, Bool, true, false, not, List, [], ◌∷◌, ◌++◌, Option, none, some, text_eq,
  if◌then◌else◌, is_empty,
}
use qomicex_connector_rust.Models.Player.{PlayerInfo, PlayerKind, host, guest, is_host}

-- The list, the receivers of the watch channel, and the value that the channel holds, if one has replaced
-- the empty list that it was made with.
pub record Players : Type 0 where
  pub list : List PlayerInfo
  pub receivers : ℕ
  pub notified : Option (List PlayerInfo)

-- `send` of tokio's watch channel: without a receiver it fails and the channel keeps its value. The source
-- does not look at the error.
unfoldable pub send_snapshot : List PlayerInfo → Players → Players
send_snapshot list p = if p.receivers == 0 then p else record p { notified = some list }

-- `notify_players_changed`: a snapshot is sent to the watch channel.
unfoldable pub notify_players_changed : Players → Players
unfolding send_snapshot
notify_players_changed p = send_snapshot p.list p

-- `players_changed_rx`: a receiver more.
unfoldable pub players_changed_rx : Players → Players
players_changed_rx p = record p { receivers = suc p.receivers }

-- A receiver is dropped.
unfoldable pub drop_receiver : Players → Players
drop_receiver p = record p { receivers = p.receivers - 1 }

-- The branch `Some(existing)`: an easytier id is kept where the ping has none.
unfoldable pub refresh : PlayerInfo → PlayerInfo → PlayerInfo
refresh existing info = record existing {
  name = info.name;
  easytier_id = (elim info.easytier_id [ none ↦ existing.easytier_id | some id ↦ some id ]);
  vendor = info.vendor;
}

-- The first player with the machine id of `info` is refreshed, or `info` joins as a guest.
unfoldable pub upsert : PlayerInfo → List PlayerInfo → List PlayerInfo
unfolding refresh
upsert info [] = record info { kind = guest } ∷ []
upsert info (p ∷ list) =
    let rest = upsert info list in
    if text_eq p.machine_id info.machine_id then refresh p info ∷ list else p ∷ rest

unfoldable pub on_player_ping_impl : PlayerInfo → Players → Players
unfolding notify_players_changed
on_player_ping_impl info p = notify_players_changed (record p { list = upsert info p.list })

-- The first player with the machine id is taken out, unless it is the host.
unfoldable pub drop_player : Text → List PlayerInfo → List PlayerInfo
drop_player mid [] = []
drop_player mid (p ∷ list) =
    let rest = drop_player mid list in
    if text_eq p.machine_id mid then (if is_host p.kind then p ∷ list else list) else p ∷ rest

unfoldable pub on_client_disconnected_impl : Option Text → Players → Players
unfolding notify_players_changed
on_client_disconnected_impl none p = notify_players_changed p
on_client_disconnected_impl (some mid) p =
    notify_players_changed (record p { list = drop_player mid p.list })

-- The task that reads the channel of disconnect events: the empty text stands for `None`.
unfoldable pub on_disconnect_event : Text → Players → Players
on_disconnect_event mid p =
    if is_empty mid
    then on_client_disconnected_impl none p
    else on_client_disconnected_impl (some mid) p

unfoldable pub remove_player : Text → Players → Players
remove_player mid p = on_client_disconnected_impl (some mid) p

unfoldable pub handle_player_ping : PlayerInfo → Players → Players
handle_player_ping info p = on_player_ping_impl info p

unfoldable pub get_players : Players → List PlayerInfo
get_players p = p.list

-- The host joins at the end of `start`.
unfoldable pub host_joins : Text → Text → Option Text → Text → Players → Players
unfolding notify_players_changed
host_joins name machine_id node_id vendor p =
    let info : PlayerInfo = record {
      name = name;
      machine_id = machine_id;
      easytier_id = node_id;
      vendor = vendor;
      kind = host;
    } in
    notify_players_changed (record p { list = p.list ++ info ∷ [] })
