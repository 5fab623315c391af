-- ===== src/Controller/Patch.antt =====
-- internal/controller/pod_controller.go: getDiagnosis, patchDiagnosisStatus, patchDiagnosisMeta.
pub mod Attempts
pub mod Bounds
pub mod Liveness
use k8s_health_ai.Prelude.{
  ℕ, zero, suc, ◌+◌, ◌*◌, ◌^◌, String, Bool, true, false, Option, none, some, Outcome, ok, err, ◌∷◌,
  if◌then◌else◌,
}
use k8s_health_ai.Go.Errors.{Error, text_error, wrapped, is_transient}
use k8s_health_ai.Action.{Action, pure, raise, attempt, ◌>>=◌, ◌>>◌}
use k8s_health_ai.Kube.{Key}
use k8s_health_ai.Api.{ClusterDiagnosis}
use k8s_health_ai.World.{
  Answer, Env, Call, World, Run, perform, read_diagnosis, status_written, written, slept,
}

abbrev pub Mutation : Type 0
Mutation = ClusterDiagnosis → ClusterDiagnosis

-- the two writers: r.Client.Status().Update and r.Client.Update
pub data Writer : Type 0 where
  status_writer metadata_writer : Writer

-- the text that wraps the last error
abbrev pub exhausted_text : Writer → String
exhausted_text status_writer = "status update retries exhausted"
exhausted_text metadata_writer = "metadata update retries exhausted"

-- the entry of a write in the trace
abbrev pub note : Writer → ClusterDiagnosis → Answer → Call
note status_writer cd answer = status_written cd answer
note metadata_writer cd answer = written cd answer

-- 25*(attempt+1) milliseconds, in nanoseconds
abbrev pub backoff : ℕ → ℕ
backoff attempt = 25 * (attempt + 1) * 10 ^ 6

module _ {S : Type 0} (env : Env S) where
  -- r.APIReader, or r.Client where that is nil
  unfoldable pub read_with :
      Option (Key → Action S ClusterDiagnosis) → Key → Action S ClusterDiagnosis
  read_with (some get) = get
  read_with none = env.get_cached

  unfoldable pub get_diagnosis : Key → Run S ClusterDiagnosis
  get_diagnosis key = perform read_diagnosis (read_with env.api_reader key)

  unfoldable pub write : Writer → ClusterDiagnosis → Run S (Unit {0})
  write status_writer cd = perform (note status_writer cd) (env.update_status cd)
  write metadata_writer cd = perform (note metadata_writer cd) (env.update cd)

  unfoldable pub pause : ℕ → Run S (Unit {0})
  pause n w = (ok tt, record { state = env.sleep n w.state; calls = slept n ∷ w.calls })

  -- what an attempt does with the answer to its write; `again` is the rest of the loop
  unfoldable pub after_write : ℕ → Answer → (Error → Run S (Unit {0})) → Run S (Unit {0})
  after_write made (ok _) again = pure tt
  after_write made (err e) again =
      if is_transient e then (pause (backoff made) >> again e) else raise e

  -- the part of an attempt behind its read
  unfoldable pub attempt_write :
      Writer → Mutation → ℕ → (Error → Run S (Unit {0})) → ClusterDiagnosis → Run S (Unit {0})
  attempt_write writer mutate made again cur = do
    answer ← attempt (write writer (mutate cur))
    after_write made answer again

  module _ (writer : Writer) (key : Key) (mutate : Mutation) where
    -- `rounds` attempts are left, `made` are behind; `last` is the last error
    unfoldable pub patch_loop : ℕ → ℕ → Error → Run S (Unit {0})
    patch_loop zero made last = raise (wrapped (exhausted_text writer) last)
    patch_loop (suc rounds) made last = do
      cur ← get_diagnosis key
      attempt_write writer mutate made (patch_loop rounds (suc made)) cur

    -- The loop makes at least one attempt, so the error that it starts with is never read.
    unfoldable pub patch_diagnosis : Run S (Unit {0})
    patch_diagnosis = patch_loop 8 0 (text_error "")

  unfoldable pub patch_diagnosis_status : Key → Mutation → Run S (Unit {0})
  patch_diagnosis_status = patch_diagnosis status_writer

  unfoldable pub patch_diagnosis_meta : Key → Mutation → Run S (Unit {0})
  patch_diagnosis_meta = patch_diagnosis metadata_writer
