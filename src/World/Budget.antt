-- ===== src/World/Budget.antt =====
-- What a piece of a run adds to the trace, at most: writes of a diagnosis, its creation among them, nanoseconds slept, and
-- calls of the LLM.
use k8s_health_ai.Prelude.{ℕ, ◌+◌, ◌≤◌, ◌∷◌, List, arith}
use k8s_health_ai.World.{
  Call, read_pod, created, status_written, written, asked_llm, slept, writes, slept_total,
  llm_calls,
}

pub record IsWithin (n pauses asked : ℕ) (before after : List Call) : Type 0 where
  pub few_writes : writes after ≤ writes before + n
  pub short_pauses : slept_total after ≤ slept_total before + pauses
  pub few_llm_calls : llm_calls after ≤ llm_calls before + asked

pub IsWithin-refl : (a : List Call) → IsWithin 0 0 0 a a
IsWithin-refl a = omega arith

pub IsWithin-weaken :
    (n p l : ℕ) (a b : List Call) {n' p' l' : ℕ}
    → IsWithin n p l a b
    → n ≤ n'
    → p ≤ p'
    → l ≤ l'
    → IsWithin n' p' l' a b
IsWithin-weaken n p l a b h le_n le_p le_l = omega arith

pub IsWithin-trans :
    (n m p q l k : ℕ) (a b c : List Call) {t u v : ℕ}
    → IsWithin n p l a b
    → IsWithin m q k b c
    → n + m ≤ t
    → p + q ≤ u
    → l + k ≤ v
    → IsWithin t u v a c
IsWithin-trans n m p q l k a b c h h' le_t le_u le_v = omega arith

-- The price of one call.
abbrev pub writes_of : Call → ℕ
writes_of (created cd answer) = 1
writes_of (status_written cd answer) = 1
writes_of (written cd answer) = 1
writes_of _ = 0

abbrev pub pause_price : Call → ℕ
pause_price (slept n) = n
pause_price _ = 0

abbrev pub llm_price : Call → ℕ
llm_price (asked_llm fc answer) = 1
llm_price _ = 0

pub IsWithin-call :
    (c : Call) (calls : List Call)
    → IsWithin (writes_of c) (pause_price c) (llm_price c) calls (c ∷ calls)
unfolding writes slept_total llm_calls
IsWithin-call read_pod calls = omega arith
IsWithin-call _ calls = omega arith
