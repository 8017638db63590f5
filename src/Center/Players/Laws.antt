-- ===== src/Center/Players/Laws.antt =====
-- Joining, refreshing and leaving.
use qomicex_connector_rust.Base.{
  ◌≡◌, refl, Text, false, List, [], ◌∷◌, Option, none, some, arith, text_eq, text_eq_iff,
  if◌then◌else◌, All,
}
use qomicex_connector_rust.Models.Player.{PlayerInfo, guest, is_host}
use qomicex_connector_rust.Center.Players.{upsert, refresh, drop_player}

-- The first player with a machine id.
abbrev pub find_player : Text → List PlayerInfo → Option PlayerInfo
find_player mid [] = none
find_player mid (p ∷ list) = if text_eq p.machine_id mid then some p else find_player mid list

-- No machine id is in the list twice.
abbrev pub Fresh : Text → List PlayerInfo → Type 0
Fresh mid list = All (λ p. text_eq p.machine_id mid ≡ false) list

abbrev pub HasDistinctIds : List PlayerInfo → Type 0
HasDistinctIds [] = Unit
HasDistinctIds (p ∷ list) = Fresh p.machine_id list × HasDistinctIds list

-- What the ping of a player makes of the entry that the list had.
abbrev pub joined : PlayerInfo → Option PlayerInfo → PlayerInfo
joined info none = record info { kind = guest }
joined info (some existing) = refresh existing info

-- After a ping the entry of its machine id is the refreshed old one, or the pinged player as a guest;
-- the entries of all other machine ids are what they were.
pub find_player-upsert :
    (mid : Text) (info : PlayerInfo) (list : List PlayerInfo)
    → find_player mid (upsert info list) ≡ (
        if text_eq info.machine_id mid
        then some (joined info (find_player info.machine_id list))
        else find_player mid list)
unfolding upsert
find_player-upsert mid info [] = ground arith
find_player-upsert mid info (p ∷ list) = ground (
  arith,
  find_player-upsert mid info list,
  text_eq_iff p.machine_id mid,
  text_eq_iff p.machine_id info.machine_id,
  text_eq_iff info.machine_id mid,
)

Fresh-upsert :
    (mid : Text) (info : PlayerInfo) (list : List PlayerInfo)
    → text_eq info.machine_id mid ≡ false
    → Fresh mid list
    → Fresh mid (upsert info list)
unfolding upsert
Fresh-upsert mid info [] h f = ground arith
Fresh-upsert mid info (p ∷ list) h f = ground (arith, Fresh-upsert mid info list h f.1)

Fresh-drop_player :
    (mid other : Text) (list : List PlayerInfo)
    → Fresh mid list
    → Fresh mid (drop_player other list)
unfolding drop_player
Fresh-drop_player mid other [] f = tt
Fresh-drop_player mid other (p ∷ list) f = ground (arith, Fresh-drop_player mid other list f.1)

-- If the machine ids of the list are distinct, they are after a ping.
pub upsert-HasDistinctIds :
    (info : PlayerInfo) (list : List PlayerInfo)
    → HasDistinctIds list
    → HasDistinctIds (upsert info list)
unfolding upsert
upsert-HasDistinctIds info [] d = ground arith
upsert-HasDistinctIds info (p ∷ list) d = ground (
  arith,
  upsert-HasDistinctIds info list d.1,
  Fresh-upsert p.machine_id info list,
  text_eq_iff p.machine_id info.machine_id,
  text_eq_iff info.machine_id p.machine_id,
)

find_player-Fresh :
    (mid : Text) (list : List PlayerInfo) → Fresh mid list → find_player mid list ≡ none
find_player-Fresh mid [] f = refl
find_player-Fresh mid (p ∷ list) f = ground (arith, find_player-Fresh mid list f.1)

-- What a departure leaves of an entry.
abbrev pub stays : Option PlayerInfo → Option PlayerInfo
stays none = none
stays (some p) = if is_host p.kind then some p else none

-- Among distinct machine ids a departure takes out the guest with its machine id; the host and all
-- other entries stay.
pub find_player-drop_player :
    (mid other : Text) (list : List PlayerInfo)
    → HasDistinctIds list
    → find_player mid (drop_player other list)
      ≡ (if text_eq other mid then stays (find_player mid list) else find_player mid list)
unfolding drop_player
find_player-drop_player mid other [] d = ground arith
find_player-drop_player mid other (p ∷ list) d = ground (
  arith,
  find_player-drop_player mid other list d.1,
  text_eq_iff p.machine_id mid,
  text_eq_iff p.machine_id other,
  text_eq_iff other mid,
  find_player-Fresh mid list,
)

pub drop_player-HasDistinctIds :
    (mid : Text) (list : List PlayerInfo)
    → HasDistinctIds list
    → HasDistinctIds (drop_player mid list)
unfolding drop_player
drop_player-HasDistinctIds mid [] d = tt
drop_player-HasDistinctIds mid (p ∷ list) d =
    ground (arith, drop_player-HasDistinctIds mid list d.1, Fresh-drop_player p.machine_id mid list)
