-- ===== src/Controller/Patch/Liveness.antt =====
-- internal/controller/pod_controller.go: a patch succeeds once the API server accepts a write.
use k8s_health_ai.Prelude.{ℕ, zero, suc, ◌<◌, ◌≡◌, refl, ◌⊎◌, inl, inr, true, ok, err, arith}
use k8s_health_ai.Go.Errors.{Error, text_error, is_transient}
use k8s_health_ai.Action.{Action}
use k8s_health_ai.Kube.{Key}
use k8s_health_ai.Api.{ClusterDiagnosis}
use k8s_health_ai.World.{Env, World, perform}
use k8s_health_ai.Controller.Patch.{
  Mutation, Writer, status_writer, metadata_writer, note, backoff, read_with, get_diagnosis, write,
  pause, after_write, attempt_write, patch_loop, patch_diagnosis,
}

module _ {S : Type 0} (env : Env S) where
  -- the write, on the API server's own state
  abbrev pub server_write : Writer → ClusterDiagnosis → Action S (Unit {0})
  server_write status_writer = env.update_status
  server_write metadata_writer = env.update

  pub write-server_write :
      (writer : Writer) (cd : ClusterDiagnosis) (w : World S)
      → write env writer cd w ≡ perform (note writer cd) (server_write writer cd) w
  unfolding write
  write-server_write status_writer cd w = refl
  write-server_write metadata_writer cd w = refl

module _ {S : Type 0} (env : Env S) (writer : Writer) (key : Key) (mutate : Mutation) where
  -- The API server answers the next read, and accepts the write behind it, or refuses it for a
  -- transient reason, which happens at most `n` times; `made` attempts are behind.
  abbrev pub Accepts : ℕ → ℕ → S → Type 0
  Accepts zero made s =
      (cur : ClusterDiagnosis) × ((read_with env env.api_reader key s).0 ≡ ok cur)
      × ((server_write env writer (mutate cur) (read_with env env.api_reader key s).1).0 ≡ ok tt)
  Accepts (suc n) made s =
      (cur : ClusterDiagnosis) × ((read_with env env.api_reader key s).0 ≡ ok cur)
      × (((server_write env writer (mutate cur) (read_with env env.api_reader key s).1).0 ≡ ok tt)
          ⊎ ((e : Error) × ((server_write env writer (mutate cur)
                  (read_with env env.api_reader key s).1).0
                ≡ err e)
              × (is_transient e ≡ true)
              × Accepts n (suc made) (
                  env.sleep (backoff made)
                    (server_write env writer (mutate cur)
                      (read_with env env.api_reader key s).1).1)))

  patch_loop-ok :
      (n rounds made : ℕ) (last : Error) (w : World S)
      → n < rounds
      → Accepts n made w.state
      → (patch_loop env writer key mutate rounds made last w).0 ≡ ok tt
  unfolding patch_loop attempt_write after_write pause get_diagnosis
  patch_loop-ok n zero made last w h a = absurd (omega arith)
  patch_loop-ok zero (suc rounds) made last w h (cur, r, a) = rw (r, write-server_write, a) refl
  patch_loop-ok (suc n) (suc rounds) made last w h (cur, r, inl a) =
      rw (r, write-server_write, a) refl
  patch_loop-ok (suc n) (suc rounds) made last w h (cur, r, inr (e, a, t, more)) =
      rw (r, write-server_write, a, t) (patch_loop-ok n rounds (suc made) e _ (omega arith) more)

  -- Where the API server answers every read, and refuses at most seven writes for a transient
  -- reason before it accepts one, the patch succeeds.
  pub patch_diagnosis-ok :
      (n : ℕ) (w : World S)
      → n < 8
      → Accepts n 0 w.state
      → (patch_diagnosis env writer key mutate w).0 ≡ ok tt
  unfolding patch_diagnosis
  patch_diagnosis-ok n w h a = patch_loop-ok n 8 0 (text_error "") w h a
