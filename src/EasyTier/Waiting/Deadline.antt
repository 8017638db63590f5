-- ===== src/EasyTier/Waiting/Deadline.antt =====
-- The wait ends, and it sees an instance that is ready in time.
use qomicex_connector_rust.Base.{
  ℕ, zero, suc, ◌+◌, ◌*◌, ◌≤◌, ◌≡◌, refl, subst, Bool, true, false, leb, arith, Bool-cases, inl,
  inr, ap, sym, ◌∙◌,
}
use qomicex_connector_rust.EasyTier.Waiting.{
  startup_timeout, poll_interval, wait_ready, elapsed_at, startup_fuel,
}

elapsed_at-le : (extra : ℕ → ℕ) (k : ℕ) → poll_interval * k ≤ elapsed_at extra k
unfolding elapsed_at
elapsed_at-le extra zero = omega arith
elapsed_at-le extra (suc k) = ground (arith, elapsed_at-le extra k)

elapsed_at-add :
    (extra : ℕ → ℕ) (i d : ℕ) → elapsed_at extra i + poll_interval * d ≤ elapsed_at extra (i + d)
unfolding elapsed_at
elapsed_at-add extra i zero = ground arith
elapsed_at-add extra i (suc d) =
    let e : i + suc d ≡ suc (i + d) = omega arith in
    let step : elapsed_at extra (i + suc d)
        ≡ elapsed_at extra (i + d) + (poll_interval + extra (i + d)) =
      ap (elapsed_at extra) e in
    ground (arith, elapsed_at-add extra i d)

module _ (ready : ℕ → Bool) (extra : ℕ → ℕ) where
  wait_ready-suc :
      (fuel elapsed i : ℕ)
      → startup_timeout ≤ elapsed + poll_interval * fuel
      → wait_ready ready extra (suc fuel) elapsed i ≡ wait_ready ready extra fuel elapsed i
  unfolding wait_ready
  wait_ready-suc zero elapsed i h = elim (Bool-cases (ready i)) [
    | inl r ↦ ground arith
    | inr r ↦ ground arith
  ]
  wait_ready-suc (suc fuel) elapsed i h =
      let later : wait_ready ready extra (suc fuel) (elapsed + (500 + extra i)) (suc i)
          ≡ wait_ready ready extra fuel (elapsed + (500 + extra i)) (suc i) =
        wait_ready-suc fuel (elapsed + (500 + extra i)) (suc i) (omega arith) in
      elim (Bool-cases (ready i)) [ inl r ↦ ground arith | inr r ↦ ground arith ]

  -- More than 60 sleeps change nothing: the wait has ended by then.
  pub wait_ready-add :
      (more : ℕ)
      → wait_ready ready extra (startup_fuel + more) 0 0 ≡ wait_ready ready extra startup_fuel 0 0
  wait_ready-add zero = refl
  wait_ready-add (suc more) =
      ap (λ n. wait_ready ready extra n 0 0) (the_sum more)
      ∙ wait_ready-suc (startup_fuel + more) 0 0 (omega arith)
      ∙ wait_ready-add more
    where
      the_sum : (more : ℕ) → startup_fuel + suc more ≡ suc (startup_fuel + more)
      the_sum more = omega arith

  wait_ready-later :
      (fuel elapsed i : ℕ)
      → ready i ≡ false
      → leb startup_timeout elapsed ≡ false
      → wait_ready ready extra (suc fuel) elapsed i
        ≡ wait_ready ready extra fuel (elapsed + (poll_interval + extra i)) (suc i)
  unfolding wait_ready
  wait_ready-later fuel elapsed i p q = ground arith

  wait_ready-now :
      (fuel elapsed i : ℕ) → ready i ≡ true → wait_ready ready extra fuel elapsed i ≡ true
  unfolding wait_ready
  wait_ready-now zero elapsed i p = p
  wait_ready-now (suc fuel) elapsed i p = ground arith

  wait_ready-late :
      (fuel elapsed i : ℕ)
      → ready i ≡ false
      → leb startup_timeout elapsed ≡ true
      → wait_ready ready extra (suc fuel) elapsed i ≡ false
  unfolding wait_ready
  wait_ready-late fuel elapsed i p q = ground arith

  -- From the question `i` on, a question `d` later that is asked in time and answered is the end.
  wait_ready-live :
      (d fuel i : ℕ)
      → d ≤ fuel
      → ready (i + d) ≡ true
      → elapsed_at extra (i + d) ≤ startup_timeout
      → wait_ready ready extra fuel (elapsed_at extra i) i ≡ true
  unfolding elapsed_at
  wait_ready-live zero fuel i h r t =
      wait_ready-now fuel (elapsed_at extra i) i (subst (λ k. ready k ≡ true) (i_zero i) r)
    where
      i_zero : (i : ℕ) → i + 0 ≡ i
      i_zero i = omega arith
  wait_ready-live (suc d) zero i h r t = ground arith
  wait_ready-live (suc d) (suc fuel) i h r t =
      let e : i + suc d ≡ suc i + d = omega arith in
      let later : wait_ready ready extra fuel (elapsed_at extra (suc i)) (suc i) ≡ true =
        wait_ready-live d fuel (suc i) (omega arith) (subst (λ k. ready k ≡ true) e r)
          (subst (λ k. elapsed_at extra k ≤ startup_timeout) e t) in
      elim (Bool-cases (ready i)) [
        | inl p ↦ wait_ready-now (suc fuel) (elapsed_at extra i) i p
        | inr p ↦
            wait_ready-later fuel (elapsed_at extra i) i p (
              in_time (elapsed_at extra i) (elapsed_at extra (i + suc d)) d t
                (elapsed_at-add extra i (suc d)))
            ∙ later
      ]
    where
      in_time :
          (now then d : ℕ)
          → then ≤ startup_timeout
          → now + poll_interval * suc d ≤ then
          → leb startup_timeout now ≡ false
      in_time now then d t h = ground arith

  wait_ready-zero : (elapsed i : ℕ) → wait_ready ready extra zero elapsed i ≡ true → ready i ≡ true
  unfolding wait_ready
  wait_ready-zero elapsed i e = e

  pub wait_ready-true :
      (fuel elapsed i : ℕ)
      → wait_ready ready extra fuel elapsed i ≡ true
      → (k : ℕ) × (k ≤ i + fuel) × (ready k ≡ true)
  wait_ready-true zero elapsed i e = (i, ground arith, wait_ready-zero elapsed i e)
  wait_ready-true (suc fuel) elapsed i e = elim (Bool-cases (ready i)) [
    | inl p ↦ (i, ground arith, p)
    | inr p ↦ elim (Bool-cases (leb startup_timeout elapsed)) [
      | inl q ↦ cc (wait_ready-late fuel elapsed i p q)
      | inr q ↦
          let (k, l, r) =
            wait_ready-true fuel (elapsed + (poll_interval + extra i)) (suc i)
              (sym (wait_ready-later fuel elapsed i p q) ∙ e) in
          (k, bound k i fuel l, r)
    ]
  ]
    where
      bound : (k i fuel : ℕ) → k ≤ suc i + fuel → k ≤ i + suc fuel
      bound k i fuel l = omega arith

  -- An instance that is ready when it is asked within 30 s of the first question is waited for.
  pub wait_ready_in_time :
      (k : ℕ)
      → ready k ≡ true
      → elapsed_at extra k ≤ startup_timeout
      → wait_ready ready extra startup_fuel 0 0 ≡ true
  unfolding elapsed_at
  wait_ready_in_time k r t =
      wait_ready-live k startup_fuel 0 (ground (arith, elapsed_at-le extra k))
        (subst (λ n. ready n ≡ true) (zero_plus k) r)
        (subst (λ n. elapsed_at extra n ≤ startup_timeout) (zero_plus k) t)
    where
      zero_plus : (k : ℕ) → k ≡ 0 + k
      zero_plus k = omega arith
