-- ===== src/Cancellation/Safe.antt =====
-- What a token and the calls on it keep true however they interleave.
use qomicex_connector_rust.Base.{
  ℕ, zero, suc, ◌≡◌, ◌⊎◌, inl, inr, refl, sym, ◌∙◌, Bool, true, false, if◌then◌else◌, ◌==◌,
  Bool-cases, arith,
}
use qomicex_connector_rust.Cancellation.{
  Notify, Waiter, entering, checked, prepared, awaiting, returned, Token, is_cancelled, at, entered,
  again, woken, resumed, resume, store, announced, announce, Step, resumes, stores, announces,
  Reachable, begin, next,
}

module _ (N : Notify) where
  -- What is known of a call, under the flag, the state of the notifications and the number of calls of
  -- `cancel()` that are over.
  abbrev pub Fits : Bool → N.State → ℕ → Waiter N.Notified → Type 0
  Fits cancelled notify cancels entering = Unit {0}
  Fits cancelled notify cancels checked = Unit {0}
  Fits cancelled notify cancels (prepared t) =
      N.IsIssued t notify × (N.is_woken t notify ≡ true → cancelled ≡ true)
  Fits cancelled notify cancels (awaiting t) =
      N.IsIssued t notify
      × (N.is_woken t notify ≡ true → cancelled ≡ true)
      × ((N.is_woken t notify ≡ true) ⊎ (cancels ≡ 0))
  Fits cancelled notify cancels returned = cancelled ≡ true

  pub record IsSafe (token : Token N) : Type 0 where
    pub unset : token.cancelled ≡ false → (token.storing ≡ 0) × (token.cancels ≡ 0)
    pub fits : (i : ℕ) → Fits token.cancelled token.notify token.cancels (token.waiters i)

  chosen :
      (P : Waiter N.Notified → Type 0) (b : Bool) (w v : Waiter N.Notified)
      → P w
      → P v
      → P (if b then w else v)
  chosen P true w v pw pv = pw
  chosen P false w v pw pv = pv

  Fits-notified :
      (c : Bool) (n : N.State) (k : ℕ) (w : Waiter N.Notified)
      → Fits c n k w
      → Fits c (N.notified n).1 k w
  Fits-notified c n k entering h = tt
  Fits-notified c n k checked h = tt
  Fits-notified c n k (prepared t) h =
      (N.notified_keeps t n h.0, λ e. h.1 (sym (N.notified_alone t n h.0) ∙ e))
  Fits-notified c n k (awaiting t) (h, f, inl e) = (
    N.notified_keeps t n h,
    λ e'. f (sym (N.notified_alone t n h) ∙ e'),
    inl (N.notified_alone t n h ∙ e),
  )
  Fits-notified c n k (awaiting t) (h, f, inr e) =
      (N.notified_keeps t n h, λ e'. f (sym (N.notified_alone t n h) ∙ e'), inr e)
  Fits-notified c n k returned h = h

  Fits-announced :
      (c : Bool) (n : N.State) (k k' : ℕ) (w : Waiter N.Notified)
      → c ≡ true
      → Fits c n k w
      → Fits c (N.notify_waiters n) k' w
  Fits-announced c n k k' entering set h = tt
  Fits-announced c n k k' checked set h = tt
  Fits-announced c n k k' (prepared t) set h = (N.notify_waiters_keeps t n h.0, λ e. set)
  Fits-announced c n k k' (awaiting t) set h =
      (N.notify_waiters_keeps t n h.0, λ e. set, inl (N.notify_waiters_wakes t n h.0))
  Fits-announced c n k k' returned set h = h

  Fits-stored :
      (c : Bool) (n : N.State) (k : ℕ) (w : Waiter N.Notified) → Fits c n k w → Fits true n k w
  Fits-stored c n k entering h = tt
  Fits-stored c n k checked h = tt
  Fits-stored c n k (prepared t) h = (h.0, λ e. refl)
  Fits-stored c n k (awaiting t) h = (h.0, (λ e. refl), h.2)
  Fits-stored c n k returned h = refl

  entered-Fits : (c : Bool) (n : N.State) (k : ℕ) → Fits c n k (entered N c)
  unfolding entered
  entered-Fits true n k = refl
  entered-Fits false n k = tt

  again-Fits :
      (c : Bool) (n : N.State) (k : ℕ) (t : N.Notified)
      → (c ≡ false → k ≡ 0)
      → Fits c n k (prepared t)
      → Fits c n k (again N t c)
  unfolding again
  again-Fits true n k t z h = refl
  again-Fits false n k t z h = (h.0, h.1, inr (z refl))

  at-IsSafe :
      (i : ℕ) (w : Waiter N.Notified) (token : Token N)
      → IsSafe token
      → Fits token.cancelled token.notify token.cancels w
      → IsSafe (at N i w token)
  unfolding at
  at-IsSafe i w token s f = record {
    unset = s.unset;
    fits = λ k.
        chosen (Fits token.cancelled token.notify token.cancels) (k == i) w (token.waiters k) f
          (s.fits k);
  }

  woken-IsSafe :
      (i : ℕ) (b : Bool) (token : Token N)
      → IsSafe token
      → (b ≡ true → token.cancelled ≡ true)
      → IsSafe (woken N i b token)
  unfolding woken
  woken-IsSafe i true token s e = at-IsSafe i returned token s (e refl)
  woken-IsSafe i false token s e = s

  resumed-IsSafe :
      (i : ℕ) (w : Waiter N.Notified) (token : Token N)
      → IsSafe token
      → Fits token.cancelled token.notify token.cancels w
      → IsSafe (resumed N i w token)
  unfolding resumed is_cancelled
  resumed-IsSafe i entering token s f =
      at-IsSafe i (entered N token.cancelled) token s
        (entered-Fits token.cancelled token.notify token.cancels)
  resumed-IsSafe i checked token s f =
      let (t, notify) = N.notified token.notify in
      at-IsSafe i (prepared t) (record token { notify = notify })
        (record {
          unset = s.unset;
          fits = λ k.
              Fits-notified token.cancelled token.notify token.cancels (token.waiters k) (s.fits k);
        })
        (
          N.notified-IsIssued token.notify,
          λ e. absurd (cc (sym (N.notified_fresh token.notify) ∙ e)),
        )
  resumed-IsSafe i (prepared t) token s f =
      at-IsSafe i (again N t token.cancelled) token s
        (again-Fits token.cancelled token.notify token.cancels t (λ e. (s.unset e).1) f)
  resumed-IsSafe i (awaiting t) token s f = woken-IsSafe i (N.is_woken t token.notify) token s f.1
  resumed-IsSafe i returned token s f = s

  announced-IsSafe :
      (n : ℕ) (token : Token N) → token.storing ≡ n → IsSafe token → IsSafe (announced N n token)
  unfolding announced
  announced-IsSafe zero token e s = s
  announced-IsSafe (suc n) token e s =
      let set : token.cancelled ≡ true = elim (Bool-cases token.cancelled) [
        | inl yes' ↦ yes'
        | inr no' ↦ absurd (omega (arith, e, (s.unset no').0))
      ] in
      record {
        unset = λ no'. cc;
        fits = λ k.
            Fits-announced token.cancelled token.notify token.cancels (suc token.cancels)
              (token.waiters k) set (s.fits k);
      }

  Step-IsSafe : {token token' : Token N} → Step N token token' → IsSafe token → IsSafe token'
  unfolding resume store announce
  Step-IsSafe {token} (resumes i) s = resumed-IsSafe i (token.waiters i) token s (s.fits i)
  Step-IsSafe {token} announces s = announced-IsSafe token.storing token refl s
  Step-IsSafe {token} stores s = record {
    unset = λ e. cc;
    fits = λ k. Fits-stored token.cancelled token.notify token.cancels (token.waiters k) (s.fits k);
  }

  pub Reachable-IsSafe : (token : Token N) → Reachable N token → IsSafe token
  Reachable-IsSafe _ begin = record { unset = λ e. (refl, refl); fits = λ i. tt }
  Reachable-IsSafe _ (next {token} {token'} r st) = Step-IsSafe st (Reachable-IsSafe token r)
