-- ===== src/Center/Registry/Timeouts.antt =====
-- Whom a round of the heartbeat check disconnects.
use qomicex_connector_rust.Base.{
  ℕ, ◌-◌, ◌≡◌, refl, subst, ◌∙◌, ◌⊎◌, inl, inr, Text, Bool, true, false, List, [], ◌∷◌, Option,
  none, some, arith, ltb, if◌then◌else◌, text_eq, text_eq_iff, Map, lookup, lookup-remove, contains,
  HasOnce, All, Bool-cases, Option-cases,
}
use qomicex_connector_rust.Center.Registry.{
  ClientRegistry, cancel, timed_out, expire, expire_all, heartbeat_check, heartbeat_timeout,
}

-- Whether a client with such a last heartbeat has timed out; one that has none never does.
abbrev pub overdue : ℕ → Option ℕ → Bool
overdue now none = false
overdue now (some last) = ltb heartbeat_timeout (now - last)

timed_out-apart :
    (now : ℕ) (m : Map ℕ) (id : Text)
    → All (λ e. text_eq e.0 id ≡ false) m
    → contains (timed_out now m) id ≡ false
unfolding timed_out contains
timed_out-apart now [] id h = refl
timed_out-apart now ((j, last) ∷ m) id h = ground (arith, timed_out-apart now m id h.1)

contains-timed_out :
    (now : ℕ) (m : Map ℕ) (id : Text)
    → HasOnce m
    → contains (timed_out now m) id ≡ overdue now (lookup id m)
unfolding timed_out lookup contains
contains-timed_out now [] id h = refl
contains-timed_out now ((j, last) ∷ m) id h =
    ground (arith, contains-timed_out now m id h.1, text_eq_iff j id, timed_out-apart now m id, h.0)

-- Clients that did not time out keep their entries in a round.
expire_all-other :
    (ids : List Text) (r : ClientRegistry) (id : Text)
    → contains ids id ≡ false
    → (lookup id (expire_all ids r).active_clients ≡ lookup id r.active_clients)
      × (lookup id (expire_all ids r).last_heartbeat ≡ lookup id r.last_heartbeat)
unfolding expire_all contains
expire_all-other [] r id h = (refl, refl)
expire_all-other (j ∷ ids) r id h = ground (
  arith,
  expire_all-other ids (expire j r) id,
  lookup-remove j id r.active_clients,
  lookup-remove j id r.last_heartbeat,
  Option-cases (lookup j r.active_clients),
)

-- A cancelled token stays cancelled.
expire_all-cancelled :
    (ids : List Text) (r : ClientRegistry) (t : ℕ)
    → r.cancelled t ≡ true
    → (expire_all ids r).cancelled t ≡ true
unfolding expire_all cancel
expire_all-cancelled [] r t h = h
expire_all-cancelled (j ∷ ids) r t h =
    ground
      (arith, expire_all-cancelled ids (expire j r) t, Option-cases (lookup j r.active_clients))

expire_all-none :
    (ids : List Text) (r : ClientRegistry) (id : Text)
    → lookup id r.active_clients ≡ none
    → lookup id (expire_all ids r).active_clients ≡ none
unfolding expire_all
expire_all-none [] r id h = h
expire_all-none (j ∷ ids) r id h = ground (
  arith,
  expire_all-none ids (expire j r) id,
  lookup-remove j id r.active_clients,
  Option-cases (lookup j r.active_clients),
)

-- The token is the client's alone.
abbrev pub Owns : ClientRegistry → Text → ℕ → Type 0
Owns r id t =
    (lookup id r.active_clients ≡ some t)
    × ((j : Text) → lookup j r.active_clients ≡ some t → j ≡ id)

expire_self :
    (r : ClientRegistry) (id : Text) (t : ℕ)
    → lookup id r.active_clients ≡ some t
    → ((expire id r).cancelled t ≡ true) × (lookup id (expire id r).active_clients ≡ none)
unfolding expire cancel
expire_self r id t h = ground (arith, lookup-remove id id r.active_clients, text_eq_iff id id)

expire-other :
    (r : ClientRegistry) (j id : Text) (t : ℕ)
    → text_eq j id ≡ false
    → Owns r id t
    → (Owns (expire j r) id t × ((expire j r).cancelled t ≡ r.cancelled t))
unfolding expire cancel
expire-other r j id t ne (h, only) = (
  (
    ground (arith, lookup-remove j id r.active_clients, Option-cases (lookup j r.active_clients)),
    λ k e. only k (
        ground
          (arith, lookup-remove j k r.active_clients, Option-cases (lookup j r.active_clients))),
  ),
  ground (arith, only j, text_eq_iff j id, Option-cases (lookup j r.active_clients)),
)

-- The token is cancelled and the connection dropped, or neither.
abbrev pub Dropped : Bool → ClientRegistry → Text → ℕ → Type 0
Dropped b r id t = (r.cancelled t ≡ b) × (lookup id r.active_clients ≡ (if b then none else some t))

expire_all-hit :
    (j id : Text) (ids : List Text) (r : ClientRegistry) (t : ℕ)
    → text_eq j id ≡ true
    → Owns r id t
    → Dropped true (expire_all (j ∷ ids) r) id t
expire_all-hit j id ids r t e o = rw ((text_eq_iff j id).0 e) (
    let (c, a) = expire_self r id t o.0 in
    unfold expire_all in
    (expire_all-cancelled ids (expire id r) t c, expire_all-none ids (expire id r) id a))

expire_all_exact :
    (ids : List Text) (r : ClientRegistry) (id : Text) (t : ℕ)
    → Owns r id t
    → r.cancelled t ≡ false
    → Dropped (contains ids id) (expire_all ids r) id t
unfolding contains
expire_all_exact [] r id t o c = unfold expire_all in (c, o.0)
expire_all_exact (j ∷ ids) r id t o c =
    split (Bool-cases (text_eq j id)) (λ o' c'. expire_all_exact ids (expire j r) id t o' c')
  where
    split :
        (text_eq j id ≡ true) ⊎ (text_eq j id ≡ false)
        → (Owns (expire j r) id t
            → (expire j r).cancelled t ≡ false
            → Dropped (contains ids id) (expire_all ids (expire j r)) id t)
        → Dropped (contains (j ∷ ids) id) (expire_all (j ∷ ids) r) id t
    split (inl e) ih = rw e (expire_all-hit j id ids r t e o)
    split (inr e) ih =
        let (o', c') = expire-other r j id t e o in rw e (unfold expire_all in ih o' (c' ∙ c))

-- Of a client that is connected under a token of its own, which is not cancelled, a round of the
-- check cancels the token and drops the connection exactly if its last accepted ping is more than
-- 15 seconds old. A client that had no ping accepted is left alone. No client has two entries of a
-- last ping.
pub heartbeat_check_exact :
    (now : ℕ) (r : ClientRegistry) (id : Text) (t : ℕ)
    → HasOnce r.last_heartbeat
    → Owns r id t
    → r.cancelled t ≡ false
    → Dropped (overdue now (lookup id r.last_heartbeat)) (heartbeat_check now r) id t
unfolding heartbeat_check
heartbeat_check_exact now r id t once o c =
    subst (λ b. Dropped b (expire_all (timed_out now r.last_heartbeat) r) id t)
      (contains-timed_out now r.last_heartbeat id once)
      (expire_all_exact (timed_out now r.last_heartbeat) r id t o c)
