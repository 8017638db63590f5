-- ===== src/Cancellation/Wakeup.antt =====
-- No wakeup is lost: once a `cancel()` is over, every call of `cancelled()` comes to its end.
use qomicex_connector_rust.Base.{
  ℕ, ◌<◌, ◌≡◌, inl, inr, refl, sym, ap, subst, ◌∙◌, Bool, true, false, ==_refl, Bool-cases, arith,
}
use qomicex_connector_rust.Cancellation.{
  Notify, Waiter, entering, checked, prepared, awaiting, returned, Token, is_cancelled, at, entered,
  again, woken, resumed, resume, Reachable,
}
use qomicex_connector_rust.Cancellation.Safe.{Fits, Reachable-IsSafe}

module _ (N : Notify) where
  at_self : (i : ℕ) (w : Waiter N.Notified) (token : Token N) → (at N i w token).waiters i ≡ w
  unfolding at
  at_self i w token = ground (arith, ==_refl i)

  returned_stays :
      (i : ℕ) (token : Token N)
      → token.waiters i ≡ returned
      → (resume N i token).waiters i ≡ returned
  unfolding resume resumed
  returned_stays i token e = subst (λ w. (resumed N i w token).waiters i ≡ returned) (sym e) e

  prepared_returns :
      (i : ℕ) (t : N.Notified) (token : Token N)
      → token.cancelled ≡ true
      → token.waiters i ≡ prepared t
      → (resume N i token).waiters i ≡ returned
  unfolding resume resumed is_cancelled again
  prepared_returns i t token c e =
      subst (λ w. (resumed N i w token).waiters i ≡ returned) (sym e)
        (at_self i (again N t token.cancelled) token ∙ ap (again N t) c)

  woken_returns :
      (i : ℕ) (b : Bool) (token : Token N) → b ≡ true → (woken N i b token).waiters i ≡ returned
  unfolding woken
  woken_returns i true token e = at_self i returned token
  woken_returns i false token e = cc

  resumed_returns :
      (i : ℕ) (w : Waiter N.Notified) (token : Token N)
      → token.waiters i ≡ w
      → Fits N token.cancelled token.notify token.cancels w
      → token.cancelled ≡ true
      → 0 < token.cancels
      → (resume N i (resumed N i w token)).waiters i ≡ returned
  unfolding resumed is_cancelled entered
  resumed_returns i entering token e f c p =
      returned_stays i (at N i (entered N token.cancelled) token)
        (at_self i (entered N token.cancelled) token ∙ ap (entered N) c)
  resumed_returns i checked token e f c p =
      let (t, notify) = N.notified token.notify in
      prepared_returns i t (record (at N i (prepared t) token) { notify = notify }) (unfold at in c)
        (at_self i (prepared t) token)
  resumed_returns i (prepared t) token e f c p =
      returned_stays i (at N i (again N t token.cancelled) token)
        (at_self i (again N t token.cancelled) token ∙ unfold again in ap (again N t) c)
  resumed_returns i (awaiting t) token e (issued, set, inl woke) c p =
      returned_stays i (woken N i (N.is_woken t token.notify) token)
        (woken_returns i (N.is_woken t token.notify) token woke)
  resumed_returns i (awaiting t) token e (issued, set, inr z) c p = absurd (omega (arith, p, z))
  resumed_returns i returned token e f c p = returned_stays i token e

  -- However any number of waiting and cancelling tasks interleave: once a call of `cancel()` is over,
  -- every call of `cancelled()` is over after two steps of its own at most.
  pub cancelled_returns :
      (token : Token N) (i : ℕ)
      → Reachable N token
      → 0 < token.cancels
      → (resume N i (resume N i token)).waiters i ≡ returned
  cancelled_returns token i r p =
      let s = Reachable-IsSafe N token r in
      let set : token.cancelled ≡ true = elim (Bool-cases token.cancelled) [
        | inl set ↦ set
        | inr unset ↦ absurd (omega (arith, p, (s.unset unset).1))
      ] in
      unfold resume in
      (let e = resumed_returns i (token.waiters i) token refl (s.fits i) set p in e)

  -- However they interleave, a call of `cancelled()` that is over has a cancelled token.
  pub returned-is_cancelled :
      (token : Token N) (i : ℕ)
      → Reachable N token
      → token.waiters i ≡ returned
      → is_cancelled N token ≡ true
  unfolding is_cancelled
  returned-is_cancelled token i r e =
      subst (Fits N token.cancelled token.notify token.cancels) e
        ((Reachable-IsSafe N token r).fits i)
