-- ===== src/Controller/Patch/Bounds.antt =====
-- internal/controller/pod_controller.go: a patch writes at most eight times and sleeps at most 0.9
-- seconds, and asks no LLM.
use k8s_health_ai.Prelude.{
  ℕ, zero, suc, ◌+◌, ◌*◌, ◌^◌, Outcome, ok, err, List, ◌∷◌, arith, Bool-cases, inl, inr,
}
use k8s_health_ai.Go.Errors.{Error, text_error, is_transient}
use k8s_health_ai.Action.{continue}
use k8s_health_ai.Kube.{Key}
use k8s_health_ai.Api.{ClusterDiagnosis}
use k8s_health_ai.World.{
  Answer, Env, Call, World, Run, read_diagnosis, slept, status_written, written,
}
use k8s_health_ai.World.Budget.{IsWithin, IsWithin-call, IsWithin-trans}
use k8s_health_ai.Controller.Patch.{
  Mutation, Writer, status_writer, metadata_writer, note, backoff, get_diagnosis, write, pause,
  after_write, attempt_write, patch_loop, patch_diagnosis,
}
use k8s_health_ai.Controller.Patch.Attempts.{get_diagnosis-calls, write-calls}

-- the sum of the pauses of `rounds` attempts behind `made` others
waits : ℕ → ℕ → ℕ
waits zero made = 0
waits (suc rounds) made = backoff made + waits rounds (suc made)

note-IsWithin :
    (writer : Writer) (cd : ClusterDiagnosis) (answer : Answer) (calls : List Call)
    → IsWithin 1 0 0 calls (note writer cd answer ∷ calls)
note-IsWithin status_writer cd answer calls = IsWithin-call (status_written cd answer) calls
note-IsWithin metadata_writer cd answer calls = IsWithin-call (written cd answer) calls

module _ {S : Type 0} (env : Env S) (writer : Writer) (key : Key) (mutate : Mutation) where
  -- A bound for the rest of the loop, whatever the world that it starts in.
  abbrev Again : ℕ → ℕ → (Error → Run S (Unit {0})) → Type 0
  Again n p again = (e : Error) (w : World S) → IsWithin n p 0 w.calls (again e w).1.calls

  after_write-IsWithin :
      (n p made : ℕ) (answer : Answer) (again : Error → Run S (Unit {0})) (w : World S)
      → Again n p again
      → IsWithin n (backoff made + p) 0 w.calls (after_write env made answer again w).1.calls
  unfolding after_write pause
  after_write-IsWithin n p made (ok u) again w h = omega arith
  after_write-IsWithin n p made (err e) again w h = elim (Bool-cases (is_transient e)) [
    | inl t ↦ rw t (
        IsWithin-trans 0 n (backoff made) p 0 0 _ _ _ (IsWithin-call (slept (backoff made)) w.calls)
          (h e (record {
            state = env.sleep (backoff made) w.state;
            calls = slept (backoff made) ∷ w.calls;
          }))
          (omega arith) (omega arith) (omega arith))
    | inr f ↦ rw f (omega arith)
  ]

  after_read-IsWithin :
      (n p made : ℕ) (r : Outcome Error ClusterDiagnosis) (again : Error → Run S (Unit {0}))
      (w : World S)
      → Again n p again
      → IsWithin
          (suc n)
          (backoff made + p)
          0
          w.calls
          (continue r (attempt_write env writer mutate made again) w).1.calls
  unfolding attempt_write
  after_read-IsWithin n p made (err e) again w h = omega arith
  after_read-IsWithin n p made (ok cur) again w h =
      let wrote = write env writer (mutate cur) w in
      IsWithin-trans 1 n 0 (backoff made + p) 0 0 _ _ _
        (rw (write-calls env writer (mutate cur) w)
          (note-IsWithin writer (mutate cur) wrote.0 w.calls))
        (after_write-IsWithin n p made wrote.0 again wrote.1 h) (omega arith) (omega arith)
        (omega arith)

  patch_loop-IsWithin :
      (rounds made : ℕ)
      → Again rounds (waits rounds made) (patch_loop env writer key mutate rounds made)
  unfolding patch_loop waits
  patch_loop-IsWithin zero made last w = omega arith
  patch_loop-IsWithin (suc rounds) made last w =
      let got = get_diagnosis env key w in
      IsWithin-trans 0 (suc rounds) 0 (waits (suc rounds) made) 0 0 _ _ _
        (rw (get_diagnosis-calls env key w) (IsWithin-call (read_diagnosis got.0) w.calls))
        (after_read-IsWithin rounds (waits rounds (suc made)) made got.0 _ got.1
          (patch_loop-IsWithin rounds (suc made)))
        (omega arith) (omega arith) (omega arith)

  -- A patch makes at most eight writes and sleeps at most 0.9 seconds in all (in nanoseconds), and
  -- it makes no LLM call.
  pub patch_diagnosis-IsWithin :
      (w : World S)
      → IsWithin 8 (900 * 10 ^ 6) 0 w.calls (patch_diagnosis env writer key mutate w).1.calls
  unfolding patch_diagnosis waits
  patch_diagnosis-IsWithin w = patch_loop-IsWithin 8 0 (text_error "") w
