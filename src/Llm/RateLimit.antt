-- ===== src/Llm/RateLimit.antt =====
-- internal/llm/ratelimit.go: the limit of LLM calls in a minute.
use k8s_health_ai.Prelude.{zero, suc, String, Option, none, some, ◌==◌, if◌then◌else◌}
use k8s_health_ai.Prelude.Int.{ℤ, pos, negsuc}
use k8s_health_ai.Go.Strings.{trim_space}
use k8s_health_ai.Go.Strconv.{atoi}
use k8s_health_ai.Action.{Action, ◌>>◌}
use k8s_health_ai.Llm.{Provider}
use k8s_health_ai.Llm.Services.{Services}

-- RateLimitedProvider: a nil limiter is `none`.
pub record RateLimitedProvider (S : Type 0) : Type 0 where
  pub inner : Provider S
  pub limiter : Option (Action S (Unit {0}))

unfoldable pub wait_and_diagnose :
    {S : Type 0} → Option (Action S (Unit {0})) → Provider S → Provider S
wait_and_diagnose none inner fc = inner fc
wait_and_diagnose (some wait) inner fc = wait >> inner fc

-- Diagnose of a RateLimitedProvider
unfoldable pub diagnose_limited : {S : Type 0} → RateLimitedProvider S → Provider S
diagnose_limited r = wait_and_diagnose r.limiter r.inner

-- an integer, or the default where the text holds none
abbrev int_or : ℤ → Option ℤ → ℤ
int_or default none = default
int_or default (some n) = n

-- the requests per minute: LLM_RPM, or 120
unfoldable pub llm_rpm : String → ℤ
llm_rpm setting =
    let s = trim_space setting in if s == "" then pos 120 else int_or (pos 120) (atoi s)

module _ {S : Type 0} (sv : Services S) where
  -- `rpm <= 0` returns the provider itself.
  unfoldable pub limit_to : ℤ → Provider S → Provider S
  limit_to (negsuc n) inner = inner
  limit_to (pos zero) inner = inner
  limit_to (pos (suc n)) inner =
      diagnose_limited (record { inner = inner; limiter = some (sv.wait (suc n)) })

  unfoldable pub wrap_with_llm_rate_limit : Provider S → Provider S
  wrap_with_llm_rate_limit inner = limit_to (llm_rpm (sv.getenv "LLM_RPM")) inner
