-- ===== src/Controller/Lifecycle/Watch.antt =====
-- internal/controller/pod_controller.go: what every call of a run maintains, the run maintains.
use k8s_health_ai.Prelude.{
  ℕ, zero, suc, ◌≡◌, refl, String, Bool, true, false, some, Outcome, ok, err, if◌then◌else◌,
}
use k8s_health_ai.Go.Errors.{Error, text_error, is_transient}
use k8s_health_ai.Action.{pure, raise, lift, attempt, continue, ◌>>=◌}
use k8s_health_ai.Kube.{Pod, Key}
use k8s_health_ai.Api.{ClusterDiagnosis}
use k8s_health_ai.Detect.{FailureType, classify}
use k8s_health_ai.Llm.{FailureContext}
use k8s_health_ai.Collect.Gather.{try_logs, list_pod_events}
use k8s_health_ai.World.{
  Answer, Env, World, Run, perform, read_pod, read_diagnosis, created, asked_llm,
}
use k8s_health_ai.Controller.Changes.{new_diagnosis}
use k8s_health_ai.Controller.Patch.{
  Mutation, Writer, status_writer, metadata_writer, get_diagnosis, write, pause, after_write,
  attempt_write, patch_loop, patch_diagnosis, patch_diagnosis_status, patch_diagnosis_meta, backoff,
}
use k8s_health_ai.Controller.Reconcile.{count_diagnosis, clock}
use k8s_health_ai.Controller.Lifecycle.{Step}

module _ {S : Type 0} (P : World S → Type 0) where
  -- from a world with P, the run ends in one
  pub record Maintains {A : Type 0} (m : Run S A) : Type 0 where
    pub ends : (w : World S) → P w → P (m w).1

  module _ {A : Type 0} where
    pub Maintains-lift : (r : Outcome Error A) → Maintains (lift r)
    Maintains-lift r = record { ends = λ w p. p }

    pub Maintains-pure : (a : A) → Maintains (pure a)
    Maintains-pure a = record { ends = λ w p. p }

    pub Maintains-raise : (e : Error) → Maintains {A = A} (raise e)
    Maintains-raise e = record { ends = λ w p. p }

    pub Maintains-attempt : (m : Run S A) → Maintains m → Maintains (attempt m)
    Maintains-attempt m h = record { ends = h.ends }

    pub Maintains-if :
        (b : Bool) (m n : Run S A) → Maintains m → Maintains n → Maintains (if b then m else n)
    Maintains-if true m n h k = h
    Maintains-if false m n h k = k

  module _ {A B : Type 0} where
    continue-Maintained :
        (r : Outcome Error A) (f : A → Run S B) (w : World S)
        → ((a : A) → Maintains (f a))
        → P w
        → P (continue r f w).1
    continue-Maintained (ok a) f w h p = (h a).ends w p
    continue-Maintained (err e) f w h p = p

    pub Maintains-bind :
        (m : Run S A) (f : A → Run S B)
        → Maintains m
        → ((a : A) → Maintains (f a))
        → Maintains (m >>= f)
    Maintains-bind m f h k = record {
      ends = λ w p. continue-Maintained (m w).0 f (m w).1 k (h.ends w p);
    }

-- Each call of a run maintains P. A read of a diagnosis also leaves behind that it was seen, and
-- a write may rely on that: it is a step from an object that was seen. A diagnosis that is created
-- is a new one, of a pod that is flagged, and owned by it.
pub record Watch {S : Type 0} (env : Env S) (P : World S → Type 0)
    (Seen : ClusterDiagnosis → World S → Type 0) : Type 0 where
  pub pods : (req : Key) → Maintains P (perform (λ _. read_pod) (env.get_pod req))
  pub cached : (key : Key) → Maintains P (perform read_diagnosis (env.get_cached key))
  pub reads : (key : Key) → Maintains P (get_diagnosis env key)
  pub sees :
      (key : Key) (w : World S) {cd : ClusterDiagnosis}
      → P w
      → (get_diagnosis env key w).0 ≡ ok cd
      → Seen cd (get_diagnosis env key w).1
  pub writes :
      (writer : Writer) (a b : ClusterDiagnosis) (w : World S)
      → Step writer a b
      → P w
      → Seen a w
      → P (write env writer b w).1
  pub creates :
      (pod : Pod) (ft : FailureType) (container name : String) (cd : ClusterDiagnosis)
      → classify (some pod) ≡ (ft, container, true)
      → env.set_controller_reference pod (new_diagnosis pod ft name) ≡ ok cd
      → Maintains P (perform (created cd) (env.create cd))
  pub events : (pod : Pod) → Maintains P (list_pod_events env pod)
  pub logs :
      (pod : Pod) (container : String) (previous : Bool)
      → Maintains P (try_logs env pod container previous)
  pub asks : (fc : FailureContext) → Maintains P (perform (asked_llm fc) (env.diagnose fc))
  pub counts : (ft : FailureType) (phase : String) → Maintains P (count_diagnosis env ft phase)
  pub ticks : Maintains P (clock env)
  pub pauses : (n : ℕ) → Maintains P (pause env n)

module _ {S : Type 0} (env : Env S) (P : World S → Type 0)
    (Seen : ClusterDiagnosis → World S → Type 0) (watch : Watch env P Seen) where
  -- a mutation each of whose writes is a step
  abbrev pub Steps : Writer → Mutation → Type 0
  Steps writer mutate = (a : ClusterDiagnosis) → Step writer a (mutate a)

  module _ (writer : Writer) (key : Key) (mutate : Mutation) (steps : Steps writer mutate) where
    after_write-Maintains :
        (made : ℕ) (answer : Answer) (again : Error → Run S (Unit {0}))
        → ((e : Error) → Maintains P (again e))
        → Maintains P (after_write env made answer again)
    unfolding after_write
    after_write-Maintains made (ok u) again h = Maintains-pure P tt
    after_write-Maintains made (err e) again h =
        Maintains-if P (is_transient e) _ _
          (Maintains-bind P _ _ (watch.pauses (backoff made)) (λ _. h e)) (Maintains-raise P e)

    after_read-Maintained :
        (made : ℕ) (r : Outcome Error ClusterDiagnosis) (again : Error → Run S (Unit {0}))
        (w : World S)
        → ((e : Error) → Maintains P (again e))
        → P w
        → ((cd : ClusterDiagnosis) → r ≡ ok cd → Seen cd w)
        → P (continue r (attempt_write env writer mutate made again) w).1
    unfolding attempt_write
    after_read-Maintained made (err e) again w h p seen = p
    after_read-Maintained made (ok cur) again w h p seen =
        (after_write-Maintains made (write env writer (mutate cur) w).0 again h).ends _
          (watch.writes writer cur (mutate cur) w (steps cur) p (seen cur refl))

    patch_loop-Maintains :
        (rounds made : ℕ) (last : Error)
        → Maintains P (patch_loop env writer key mutate rounds made last)
    unfolding patch_loop
    patch_loop-Maintains zero made last = Maintains-raise P _
    patch_loop-Maintains (suc rounds) made last = record {
      ends = λ w p.
          after_read-Maintained made (get_diagnosis env key w).0 _ (get_diagnosis env key w).1
            (patch_loop-Maintains rounds (suc made)) ((watch.reads key).ends w p)
            (λ cd e. watch.sees key w p e);
    }

    patch_diagnosis-Maintains : Maintains P (patch_diagnosis env writer key mutate)
    unfolding patch_diagnosis
    patch_diagnosis-Maintains = patch_loop-Maintains 8 0 (text_error "")

  pub patch_status-Maintains :
      (key : Key) (mutate : Mutation)
      → Steps status_writer mutate
      → Maintains P (patch_diagnosis_status env key mutate)
  unfolding patch_diagnosis_status
  patch_status-Maintains = patch_diagnosis-Maintains status_writer

  pub patch_meta-Maintains :
      (key : Key) (mutate : Mutation)
      → Steps metadata_writer mutate
      → Maintains P (patch_diagnosis_meta env key mutate)
  unfolding patch_diagnosis_meta
  patch_meta-Maintains = patch_diagnosis-Maintains metadata_writer
