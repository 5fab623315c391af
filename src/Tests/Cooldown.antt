-- ===== src/Tests/Cooldown.antt =====
-- The time after an LLM call, at the server in memory whose clock reads a minute later.
use k8s_health_ai.Prelude.{ℕ, ◌*◌, ◌^◌, ◌≡◌, refl, ◌⊎◌, some, ok, str_ne, arith}
use k8s_health_ai.Prelude.Int.{ℤ}
use k8s_health_ai.Detect.{crash_loop_back_off}
use k8s_health_ai.Go.Strconv.{format_nat}
use k8s_health_ai.World.{World, writes, llm_calls}
use k8s_health_ai.Controller.Changes.{set_last_llm_call}
use k8s_health_ai.Controller.Reconcile.{finished, requeue_in, reconcile_inner}
use k8s_health_ai.Controller.Reconcile.Cooldown.{reconcile_cooldown}
use k8s_health_ai.Tests.Data.{crashing_pod}
use k8s_health_ai.Tests.Detection.{classify_crashing}
use k8s_health_ai.Tests.Memory.{Memory, memory, start_with}
use k8s_health_ai.Tests.Runs.{request, fresh}

abbrev minute : ℕ
minute = 60 * 10 ^ 9

-- asked at the first minute, and no analysis stored for the pod as it is now
abbrev asked : World Memory
asked = start_with (some (set_last_llm_call (format_nat minute) fresh)) 0 (2 * minute)

reconcile_cooldown_example :
    (((reconcile_inner memory request asked).0 ≡ ok finished)
      ⊎ ((d : ℤ) × ((reconcile_inner memory request asked).0 ≡ ok (requeue_in d))))
    × (writes (reconcile_inner memory request asked).1.calls ≡ writes asked.calls)
    × (llm_calls (reconcile_inner memory request asked).1.calls ≡ llm_calls asked.calls)
unfolding format_nat
reconcile_cooldown_example =
    reconcile_cooldown memory request asked crashing_pod crash_loop_back_off "app" fresh minute
      (2 * minute) asked.state asked.state asked.state refl classify_crashing refl refl
      (str_ne refl) refl (omega arith)
