-- ===== src/Core/Heartbeat.antt =====
-- crates/qomicex-connector/src/core/heartbeat.rs. The loop over what its `select!` meets: an interval
-- that ends, with the answer of the callback, or the cancellation.
use qomicex_connector_rust.Base.{
  ℕ, ◌+◌, ◌≡◌, refl, Bool, true, false, List, [], ◌∷◌, ◌++◌, if◌then◌else◌, All,
}

pub data Beat : Type 0 where
  sent failed cancelled : Beat

-- What the loop has done: calls of the callback, calls of `on_failed`, and whether it has stopped.
pub record Run : Type 0 where
  pub callbacks : ℕ
  pub failures : ℕ
  pub stopped : Bool

abbrev pub start : Run
start = record { callbacks = 0; failures = 0; stopped = false }

-- `has_on_failed`: the service was given an `on_failed`.
module _ (has_on_failed : Bool) where
  unfoldable pub run : Run → List Beat → Run
  run r [] = r
  run r (sent ∷ beats) = run (record r { callbacks = r.callbacks + 1 }) beats
  run r (failed ∷ beats) = record r {
    callbacks = r.callbacks + 1;
    failures = (if has_on_failed then r.failures + 1 else r.failures);
    stopped = true;
  }
  run r (cancelled ∷ beats) = record r { stopped = true }

  -- Behind beats that go through, a failure calls `on_failed` once, if there is one, and a
  -- cancellation ends the loop without a further call; what would come after a failure or a
  -- cancellation makes no difference.
  pub run-append :
      (oks later : List Beat) (r : Run)
      → All (λ b. b ≡ sent) oks
      → (run r (oks ++ failed ∷ later) ≡ run r (oks ++ failed ∷ []))
        × (run r (oks ++ cancelled ∷ later) ≡ record (run r oks) { stopped = true })
        × ((run r (oks ++ failed ∷ later)).failures
            ≡ (if has_on_failed then r.failures + 1 else r.failures))
  unfolding run
  run-append [] later r h = (refl, refl, refl)
  run-append (sent ∷ oks) later r h = run-append oks later _ h.1
  run-append (failed ∷ oks) later r h = absurd (cc)
  run-append (cancelled ∷ oks) later r h = absurd (cc)
