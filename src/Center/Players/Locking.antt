-- ===== src/Center/Players/Locking.antt =====
-- The attempts at the lock of the player list in center/scaffolding_center.rs of
-- crates/qomicex-connector/src: an update tries 10000 times and is skipped if no attempt gets it. What
-- the attempts get is a parameter, by their number.
use qomicex_connector_rust.Base.{
  ℕ, zero, suc, ◌+◌, ◌<◌, ◌≤◌, ◌≡◌, refl, ap, ◌∙◌, inl, inr, Text, Bool, true, false, List, [],
  Option, none, some, Bool-cases, arith, if◌then◌else◌,
}
use qomicex_connector_rust.Models.Player.{PlayerInfo}
use qomicex_connector_rust.Center.Players.{
  Players, notify_players_changed, send_snapshot, upsert, drop_player, on_player_ping_impl,
  on_client_disconnected_impl, get_players,
}

abbrev pub lock_retry_limit : ℕ
lock_retry_limit = 10000

-- Whether one of the `left` attempts from number `i` on gets the lock.
unfoldable pub try_lock : (ℕ → Bool) → (left i : ℕ) → Bool
try_lock free zero i = false
try_lock free (suc left) i = elim (free i) [ true ↦ true | false ↦ try_lock free left (suc i) ]

module _ (free : ℕ → Bool) where
  update_if : Bool → (List PlayerInfo → List PlayerInfo) → Players → Players
  update_if true f p = record p { list = f p.list }
  update_if false f p = p

  unfoldable pub with_players_write : (List PlayerInfo → List PlayerInfo) → Players → Players
  unfolding update_if
  with_players_write f p = update_if (try_lock free lock_retry_limit 0) f p

  unfoldable pub with_players_read : {R : Type 0} → (List PlayerInfo → R) → Players → Option R
  with_players_read f p = if try_lock free lock_retry_limit 0 then some (f p.list) else none

or_empty : Option (List PlayerInfo) → List PlayerInfo
or_empty none = []
or_empty (some list) = list

-- `get_players`: a list that cannot be read is empty.
unfoldable pub get_players_locked : (ℕ → Bool) → Players → List PlayerInfo
unfolding or_empty
get_players_locked read p = or_empty (with_players_read read (λ list. list) p)

unfoldable pub notify_locked : (ℕ → Bool) → Players → Players
notify_locked read p = send_snapshot (get_players_locked read p) p

module _ (write read : ℕ → Bool) where
  unfoldable pub on_player_ping_locked : PlayerInfo → Players → Players
  on_player_ping_locked info p = notify_locked read (with_players_write write (upsert info) p)

  unfoldable pub on_client_disconnected_locked : Option Text → Players → Players
  on_client_disconnected_locked none p = notify_locked read p
  on_client_disconnected_locked (some mid) p =
      notify_locked read (with_players_write write (drop_player mid) p)

try_lock-true :
    (free : ℕ → Bool) (left i j : ℕ)
    → i ≤ j
    → j < i + left
    → free j ≡ true
    → try_lock free left i ≡ true
unfolding try_lock
try_lock-true free zero i j a b h = absurd (omega (arith, a, b))
try_lock-true free (suc left) i j a b h = elim (Bool-cases (free i)) [
  | inl now ↦ rw (now, try_lock) refl
  | inr later ↦
      rw (later, try_lock) (try_lock-true free left (suc i) j (ground arith) (omega (arith, b)) h)
]

try_lock-false :
    (free : ℕ → Bool) (left i : ℕ)
    → ((j : ℕ) → j < i + left → free j ≡ false)
    → try_lock free left i ≡ false
unfolding try_lock
try_lock-false free zero i h = refl
try_lock-false free (suc left) i h =
    rw (h i (omega arith), try_lock)
      (try_lock-false free left (suc i) (λ j b. h j (omega (arith, b))))

module _ (free : ℕ → Bool) (p : Players) where
  with_players_write-free :
      (f : List PlayerInfo → List PlayerInfo)
      → try_lock free lock_retry_limit 0 ≡ true
      → with_players_write free f p ≡ record p { list = f p.list }
  unfolding with_players_write update_if
  with_players_write-free f e = rw e refl

  get_players_locked-free :
      try_lock free lock_retry_limit 0 ≡ true → get_players_locked free p ≡ get_players p
  unfolding get_players_locked with_players_read or_empty get_players
  get_players_locked-free e = rw e refl

  with_players_write-taken :
      (f : List PlayerInfo → List PlayerInfo)
      → try_lock free lock_retry_limit 0 ≡ false
      → with_players_write free f p ≡ p
  unfolding with_players_write update_if
  with_players_write-taken f e = rw e refl

  get_players_locked-taken :
      try_lock free lock_retry_limit 0 ≡ false → get_players_locked free p ≡ []
  unfolding get_players_locked with_players_read or_empty
  get_players_locked-taken e = rw e refl

notify_locked-free :
    (read : ℕ → Bool) (p : Players)
    → try_lock read lock_retry_limit 0 ≡ true
    → notify_locked read p ≡ notify_players_changed p
unfolding notify_locked notify_players_changed get_players
notify_locked-free read p e = ap (λ list. send_snapshot list p) (get_players_locked-free read p e)

disconnected_locked-free :
    (write read : ℕ → Bool) (mid : Option Text) (p : Players)
    → try_lock write lock_retry_limit 0 ≡ true
    → try_lock read lock_retry_limit 0 ≡ true
    → on_client_disconnected_locked write read mid p ≡ on_client_disconnected_impl mid p
unfolding on_client_disconnected_locked on_client_disconnected_impl
disconnected_locked-free write read none p w r = notify_locked-free read p r
disconnected_locked-free write read (some mid) p w r =
    ap (notify_locked read) (with_players_write-free write p (drop_player mid) w)
    ∙ notify_locked-free read (record p { list = drop_player mid p.list }) r

-- Where one of the first 10000 attempts at each lock gets it, pings, disconnects and the list that is
-- asked for are what they are under a lock that blocks.
pub locked_lem :
    (write read : ℕ → Bool) (i j : ℕ) (info : PlayerInfo) (mid : Option Text) (p : Players)
    → i < lock_retry_limit
    → j < lock_retry_limit
    → write i ≡ true
    → read j ≡ true
    → (on_player_ping_locked write read info p ≡ on_player_ping_impl info p)
      × (on_client_disconnected_locked write read mid p ≡ on_client_disconnected_impl mid p)
      × (get_players_locked read p ≡ get_players p)
unfolding on_player_ping_locked on_player_ping_impl
locked_lem write read i j info mid p a b w r =
    let w' = try_lock-true write lock_retry_limit 0 i (omega arith) a w in
    let r' = try_lock-true read lock_retry_limit 0 j (omega arith) b r in
    (
      ap (notify_locked read) (with_players_write-free write p (upsert info) w')
          ∙ notify_locked-free read (record p { list = upsert info p.list }) r',
      disconnected_locked-free write read mid p w' r',
      get_players_locked-free read p r',
    )

-- Where none of the first 10000 attempts at either lock gets it, a ping leaves the list alone, and
-- the empty list is sent to the watch channel.
pub on_player_ping_locked-taken :
    (write read : ℕ → Bool) (info : PlayerInfo) (p : Players)
    → ((j : ℕ) → j < lock_retry_limit → write j ≡ false)
    → ((j : ℕ) → j < lock_retry_limit → read j ≡ false)
    → on_player_ping_locked write read info p ≡ send_snapshot [] p
unfolding on_player_ping_locked notify_locked
on_player_ping_locked-taken write read info p w r =
    ap (λ (q : Players). send_snapshot (get_players_locked read q) q)
      (with_players_write-taken write p (upsert info) (try_lock-false write lock_retry_limit 0 w))
    ∙ ap (λ list. send_snapshot list p)
        (get_players_locked-taken read p (try_lock-false read lock_retry_limit 0 r))
