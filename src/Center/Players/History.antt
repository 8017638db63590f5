-- ===== src/Center/Players/History.antt =====
-- The player list over a history of pings and departures.
use qomicex_connector_rust.Base.{
  ℕ, suc, ◌-◌, ◌≤◌, ◌≡◌, refl, sym, subst, Text, false, List, [], ◌∷◌, ◌++◌, Option, some, arith,
  text_eq, text_eq_iff, if◌then◌else◌, All-append,
}
use qomicex_connector_rust.Models.Player.{PlayerInfo, host}
use qomicex_connector_rust.Center.Players.{
  Players, send_snapshot, notify_players_changed, players_changed_rx, drop_receiver, drop_player,
  upsert, refresh, on_player_ping_impl, on_client_disconnected_impl, host_joins,
  on_disconnect_event, remove_player, handle_player_ping,
}
use qomicex_connector_rust.Center.Players.Laws.{
  find_player, Fresh, HasDistinctIds, find_player-upsert, upsert-HasDistinctIds,
  find_player-drop_player, drop_player-HasDistinctIds,
}

-- What can change the list of a room that runs, and who watches it.
pub data Event : Type 0 where
  pinged : PlayerInfo → Event
  disconnected : Text → Event
  removed : Text → Event
  subscribed : Event
  unsubscribed : Event

unfoldable pub step : Event → Players → Players
step (pinged info) p = handle_player_ping info p
step (disconnected mid) p = on_disconnect_event mid p
step (removed mid) p = remove_player mid p
step subscribed p = players_changed_rx p
step unsubscribed p = drop_receiver p

unfoldable pub history : List Event → Players → Players
unfolding step
history [] p = p
history (e ∷ es) p = history es (step e p)

-- The entry of a machine id is a host.
abbrev pub IsListed : Text → List PlayerInfo → Type 0
IsListed mid list = (info : PlayerInfo) × (find_player mid list ≡ some info) × (info.kind ≡ host)

-- The host is listed under its machine id, and ids are distinct.
pub record IsHosted (mid : Text) (p : Players) : Type 0 where
  pub distinct : HasDistinctIds p.list
  pub listed : IsListed mid p.list

-- There is a receiver, and the channel holds the list.
pub record IsCurrent (p : Players) : Type 0 where
  pub watched : 1 ≤ p.receivers
  pub published : p.notified ≡ some p.list

-- Of `n` receivers, one is always left while the events come.
unfoldable pub IsWatched : List Event → ℕ → Type 0
IsWatched [] n = 1 ≤ n
IsWatched (subscribed ∷ es) n = IsWatched es (suc n)
IsWatched (unsubscribed ∷ es) n = (2 ≤ n) × IsWatched es (n - 1)
IsWatched (pinged info ∷ es) n = IsWatched es n
IsWatched (disconnected mid ∷ es) n = IsWatched es n
IsWatched (removed mid ∷ es) n = IsWatched es n

-- A send changes neither the list nor the receivers.
pub send_snapshot_kept :
    (list : List PlayerInfo) (p : Players)
    → ((send_snapshot list p).list ≡ p.list) × ((send_snapshot list p).receivers ≡ p.receivers)
unfolding send_snapshot
send_snapshot_kept list p = ground arith

send_snapshot-IsHosted :
    (mid : Text) (list : List PlayerInfo) (p : Players)
    → IsHosted mid p
    → IsHosted mid (send_snapshot list p)
send_snapshot-IsHosted mid list p h = record {
  distinct = subst HasDistinctIds (sym (send_snapshot_kept list p).0) h.distinct;
  listed = subst (IsListed mid) (sym (send_snapshot_kept list p).0) h.listed;
}

ping_lists_host :
    (mid : Text) (info : PlayerInfo) (list : List PlayerInfo)
    → IsListed mid list
    → IsListed mid (upsert info list)
unfolding refresh
ping_lists_host mid info list (old, e, k) = (
  if text_eq info.machine_id mid then refresh old info else old,
  ground (arith, find_player-upsert mid info list, text_eq_iff info.machine_id mid),
  ground arith,
)

ping-IsHosted :
    (mid : Text) (info : PlayerInfo) (p : Players)
    → IsHosted mid p
    → IsHosted mid (on_player_ping_impl info p)
unfolding on_player_ping_impl notify_players_changed
ping-IsHosted mid info p h =
    send_snapshot-IsHosted mid (upsert info p.list) (record p { list = upsert info p.list })
      (record {
        distinct = upsert-HasDistinctIds info p.list h.distinct;
        listed = ping_lists_host mid info p.list h.listed;
      })

leave-IsHosted :
    (mid other : Text) (p : Players)
    → IsHosted mid p
    → IsHosted mid (on_client_disconnected_impl (some other) p)
unfolding on_client_disconnected_impl notify_players_changed
leave-IsHosted mid other p h =
    let (info, e, k) = h.listed in
    send_snapshot-IsHosted mid (drop_player other p.list)
      (record p { list = drop_player other p.list })
      (record {
        distinct = drop_player-HasDistinctIds other p.list h.distinct;
        listed = (info, ground (arith, find_player-drop_player mid other p.list h.distinct), k);
      })

event-IsHosted : (mid : Text) (e : Event) (p : Players) → IsHosted mid p → IsHosted mid (step e p)
unfolding step on_disconnect_event remove_player handle_player_ping on_client_disconnected_impl
    notify_players_changed players_changed_rx drop_receiver
event-IsHosted mid (pinged info) p h = ping-IsHosted mid info p h
event-IsHosted mid (removed other) p h = leave-IsHosted mid other p h
event-IsHosted mid (disconnected []) p h = send_snapshot-IsHosted mid p.list p h
event-IsHosted mid (disconnected (c ∷ s)) p h = leave-IsHosted mid (c ∷ s) p h
event-IsHosted mid subscribed p h = record { distinct = h.distinct; listed = h.listed }
event-IsHosted mid unsubscribed p h = record { distinct = h.distinct; listed = h.listed }

-- If the host is listed as the host and no machine id is listed twice, then so it is after any pings,
-- disconnects and removals, also with the host's own machine id, and whoever watches.
pub history-IsHosted :
    (mid : Text) (es : List Event) (p : Players) → IsHosted mid p → IsHosted mid (history es p)
unfolding history
history-IsHosted mid [] p h = h
history-IsHosted mid (e ∷ es) p h = history-IsHosted mid es (step e p) (event-IsHosted mid e p h)

-- What a step does to the receivers.
receivers_after : Event → ℕ → ℕ
receivers_after subscribed n = suc n
receivers_after unsubscribed n = n - 1
receivers_after (pinged info) n = n
receivers_after (disconnected mid) n = n
receivers_after (removed mid) n = n

Fresh-host :
    (mid : Text) (list : List PlayerInfo) (info : PlayerInfo)
    → Fresh mid list
    → HasDistinctIds list
    → info.machine_id ≡ mid
    → HasDistinctIds (list ++ info ∷ []) × (find_player mid (list ++ info ∷ []) ≡ some info)
Fresh-host mid [] info f d e = ground (arith, text_eq_iff info.machine_id mid)
Fresh-host mid (p ∷ list) info f d e =
    let (d', found) = Fresh-host mid list info f.1 d.1 e in
    let apart : text_eq info.machine_id p.machine_id ≡ false =
      ground (arith, f.0, text_eq_iff info.machine_id p.machine_id, text_eq_iff p.machine_id mid) in
    (
      (
        All-append (λ q. text_eq q.machine_id p.machine_id ≡ false) list (info ∷ []) d.0
            (apart, tt),
        d',
      ),
      ground (arith, f.0),
    )

-- The host that joins at the end of `start` is listed as the host and machine ids are distinct, if the
-- machine ids were distinct and no guest had come with the host's.
pub host_joins-IsHosted :
    (name machine_id : Text) (node_id : Option Text) (vendor : Text) (p : Players)
    → HasDistinctIds p.list
    → Fresh machine_id p.list
    → IsHosted machine_id (host_joins name machine_id node_id vendor p)
unfolding host_joins notify_players_changed
host_joins-IsHosted name machine_id node_id vendor p d f =
    let info : PlayerInfo = record {
      name = name;
      machine_id = machine_id;
      easytier_id = node_id;
      vendor = vendor;
      kind = host;
    } in
    let (d', found) = Fresh-host machine_id p.list info f d refl in
    send_snapshot-IsHosted machine_id (p.list ++ info ∷ [])
      (record p { list = p.list ++ info ∷ [] })
      (record { distinct = d'; listed = (info, found, refl) })
