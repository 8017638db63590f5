-- ===== src/EasyTier/Waiting.antt =====
-- The wait for a started instance in easytier/manager.rs of crates/qomicex-connector/src: it is asked
-- every 500 ms whether it is ready, for 30 s. A sleep may take longer than it is asked to.
pub mod Deadline
use qomicex_connector_rust.Base.{ℕ, zero, suc, ◌+◌, Bool, true, false, leb}

abbrev pub startup_timeout : ℕ
startup_timeout = 30000

abbrev pub poll_interval : ℕ
poll_interval = 500

module _ (ready : ℕ → Bool) (extra : ℕ → ℕ) where
  -- The loop from its question `i` on, `elapsed` ms after its begin; the fuel bounds the sleeps.
  unfoldable pub wait_ready : (fuel elapsed i : ℕ) → Bool
  wait_ready zero elapsed i = ready i
  wait_ready (suc fuel) elapsed i = elim (ready i) [
    | true ↦ true
    | false ↦ elim (leb startup_timeout elapsed) [
      | true ↦ false
      | false ↦ wait_ready fuel (elapsed + (poll_interval + extra i)) (suc i)
    ]
  ]

-- The time at the question `i`, in ms after the first.
unfoldable pub elapsed_at : (ℕ → ℕ) → ℕ → ℕ
elapsed_at extra zero = 0
elapsed_at extra (suc i) = elapsed_at extra i + (poll_interval + extra i)

-- 60 sleeps of 500 ms pass the deadline.
abbrev pub startup_fuel : ℕ
startup_fuel = 60
