-- ===== src/Cancellation.antt =====
-- `CancellationToken` of crates/qomicex-connector/src/util.rs: any number of tasks wait for the
-- cancellation while others cancel. A step is what a task does between two accesses to the token,
-- which are atomic; tokio's `Notify` is an interface.
pub mod Safe
pub mod Wakeup
use qomicex_connector_rust.Base.{ℕ, zero, suc, ◌≡◌, Bool, true, false, if◌then◌else◌, ◌==◌}

-- `Notify`: its state, the futures of `notified()`, and whether one that is awaited returns. What
-- tokio documents: a future is woken by `notify_waiters` after its creation and by nothing else that is
-- called here, also before it is awaited.
pub record Notify : Type 1 where
  pub State : Type 0
  pub Notified : Type 0
  pub default : State
  pub notified : State → Notified × State
  pub notify_waiters : State → State
  pub is_woken : Notified → State → Bool
  pub IsIssued : Notified → State → Type 0
  pub notified-IsIssued : (s : State) → IsIssued (notified s).0 (notified s).1
  pub notified_keeps : (t : Notified) (s : State) → IsIssued t s → IsIssued t (notified s).1
  pub notify_waiters_keeps :
      (t : Notified) (s : State) → IsIssued t s → IsIssued t (notify_waiters s)
  pub notify_waiters_wakes :
      (t : Notified) (s : State) → IsIssued t s → is_woken t (notify_waiters s) ≡ true
  pub notified_fresh : (s : State) → is_woken (notified s).0 (notified s).1 ≡ false
  pub notified_alone :
      (t : Notified) (s : State) → IsIssued t s → is_woken t (notified s).1 ≡ is_woken t s

-- Where a call of `cancelled()` stands: before the first check, behind it, with its future before the
-- second check, at the `await`, and behind it.
pub data Waiter (Notified : Type 0) : Type 0 where
  entering : Waiter Notified
  checked : Waiter Notified
  prepared : Notified → Waiter Notified
  awaiting : Notified → Waiter Notified
  returned : Waiter Notified

module _ (N : Notify) where
  -- The fields of the token, the calls of `cancelled()`, the calls of `cancel()` that have stored the
  -- flag and not yet notified, and those that are over.
  pub record Token : Type 0 where
    pub cancelled : Bool
    pub notify : N.State
    pub waiters : ℕ → Waiter N.Notified
    pub storing : ℕ
    pub cancels : ℕ

  -- `CancellationToken::new`
  abbrev pub new_token : Token
  new_token = record {
    cancelled = false;
    notify = N.default;
    waiters = λ i. entering;
    storing = 0;
    cancels = 0;
  }

  unfoldable pub is_cancelled : Token → Bool
  is_cancelled token = token.cancelled

  unfoldable pub at : ℕ → Waiter N.Notified → Token → Token
  at i waiter token = record token { waiters = λ k. if k == i then waiter else token.waiters k }

  entered : Bool → Waiter N.Notified
  entered true = returned
  entered false = checked

  again : N.Notified → Bool → Waiter N.Notified
  again t true = returned
  again t false = awaiting t

  woken : ℕ → Bool → Token → Token
  unfolding at
  woken i true token = at i returned token
  woken i false token = token

  resumed : ℕ → Waiter N.Notified → Token → Token
  unfolding at entered again woken is_cancelled
  resumed i entering token = at i (entered (is_cancelled token)) token
  resumed i checked token =
      let (t, notify) = N.notified token.notify in
      record (at i (prepared t) token) { notify = notify }
  resumed i (prepared t) token = at i (again t (is_cancelled token)) token
  resumed i (awaiting t) token = woken i (N.is_woken t token.notify) token
  resumed i returned token = token

  -- The next step of the call `i` of `cancelled()`; one that is not woken stays where it is.
  unfoldable pub resume : ℕ → Token → Token
  unfolding resumed
  resume i token = resumed i (token.waiters i) token

  -- The two halves of `cancel()`.
  unfoldable pub store : Token → Token
  store token = record token { cancelled = true; storing = suc token.storing }

  announced : ℕ → Token → Token
  announced zero token = token
  announced (suc n) token = record token {
    storing = n;
    cancels = suc token.cancels;
    notify = N.notify_waiters token.notify;
  }

  unfoldable pub announce : Token → Token
  unfolding announced
  announce token = announced token.storing token

  -- The tasks in any order.
  pub data Step : Token → Token → Type 0 where
    resumes : {token : Token} (i : ℕ) → Step token (resume i token)
    stores : {token : Token} → Step token (store token)
    announces : {token : Token} → Step token (announce token)

  pub data Reachable : Token → Type 0 where
    begin : Reachable new_token
    next : {token token' : Token} → Reachable token → Step token token' → Reachable token'
