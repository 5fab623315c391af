-- ===== src/Controller/Rate/Window.antt =====
-- internal/controller/pod_controller.go: when the reconciler waits, and for how long.
use k8s_health_ai.Prelude.{ℕ, ◌+◌, ◌-◌, ◌≤◌, ◌<◌, ◌≡◌, ◌↔◌, none, some, false, arith}
use k8s_health_ai.Prelude.Int.{ℤ, pos, int64_half, is_positive}
use k8s_health_ai.Controller.Rate.{min_between_llm, requeue_delay, since, remaining}

-- The reconciler goes on exactly if five minutes have passed since the last LLM call. A time in
-- the future, however far, makes it wait.
pub requeue_delay-none_iff :
    (now ts : ℕ) → (requeue_delay now (some ts) ≡ none) ↔ (ts + min_between_llm ≤ now)
unfolding requeue_delay
requeue_delay-none_iff now ts = ground arith

-- Where fewer than five minutes have passed since the last LLM call, whose time lies less than some
-- 292 years in the future, the delay is positive and ends five minutes after that call: of the
-- later tests, those from the delay's end on let the pod through, and no other.
pub requeue_delay_exact :
    (now ts : ℕ)
    → now < ts + min_between_llm
    → ts + min_between_llm < now + int64_half
    → (d : ℕ) × (requeue_delay now (some ts) ≡ some (pos d))
      × (0 < d)
      × (now + d ≡ ts + min_between_llm)
      × ((e : ℕ) → (requeue_delay (now + e) (some ts) ≡ none) ↔ (d ≤ e))
unfolding requeue_delay
requeue_delay_exact now ts h k =
    (ts + min_between_llm - now, ground arith, omega arith, omega arith, λ e. ground arith)

-- For a time of the last LLM call some 292 years in the future or more, the subtraction wraps around:
-- the test still holds the pod back, but the delay that it gives is not positive.
pub requeue_delay_wraps :
    (now ts : ℕ)
    → now + int64_half ≤ ts + min_between_llm
    → (z : ℤ) × (requeue_delay now (some ts) ≡ some z) × (is_positive z ≡ false)
unfolding requeue_delay
requeue_delay_wraps now ts h = (remaining (since now ts), ground arith, ground arith)
