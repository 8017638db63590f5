-- ===== src/Tests/Tokens.antt =====
-- The cancellation token at concrete inputs.
use qomicex_connector_rust.Base.{ℕ, suc, ◌<◌, ◌≤◌, ◌≡◌, refl, true, false, arith, ltb}
use qomicex_connector_rust.Cancellation.{
  Notify, Token, new_token, returned, resume, store, announce, Reachable, begin, next, resumes,
  stores, announces,
}
use qomicex_connector_rust.Cancellation.Wakeup.{cancelled_returns}

ltb_self : (s : ℕ) → ltb s s ≡ false
ltb_self s = ground arith

ltb_later : (t s : ℕ) → t ≤ s → ltb t (suc s) ≡ true
ltb_later t s h = ground arith

-- A future is the number of calls of `notify_waiters` at its creation.
abbrev counting : Notify
counting = record {
  State = ℕ;
  Notified = ℕ;
  default = 0;
  notified = λ s. (s, s);
  notify_waiters = λ s. suc s;
  is_woken = λ t s. ltb t s;
  IsIssued = λ t s. t ≤ s;
  notified-IsIssued = λ s. omega arith;
  notified_keeps = λ t s h. h;
  notify_waiters_keeps = λ t s h. omega arith;
  notify_waiters_wakes = ltb_later;
  notified_fresh = ltb_self;
  notified_alone = λ t s h. refl;
}

-- One call awaits when the token is cancelled.
abbrev late : Token counting
late = announce counting (
    store counting (resume counting 0 (resume counting 0 (resume counting 0 (new_token counting)))))

late-Reachable : Reachable counting late
late-Reachable =
    next (next (next (next (next begin (resumes 0)) (resumes 0)) (resumes 0)) stores) announces

late_is_over : 0 < late.cancels
unfolding announce store resume
late_is_over = omega arith

cancelled_returns_example : (resume counting 0 (resume counting 0 late)).waiters 0 ≡ returned
cancelled_returns_example = cancelled_returns counting late 0 late-Reachable late_is_over
