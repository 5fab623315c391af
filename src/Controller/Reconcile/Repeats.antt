-- ===== src/Controller/Reconcile/Repeats.antt =====
-- internal/controller/pod_controller.go: what a run does after one that stored a diagnosis, for a
-- pod in the same state and for one whose container was restarted.
use k8s_health_ai.Prelude.{
  ℕ, ◌≡◌, ◌≢◌, refl, sym, ◌∙◌, String, Bool-cases, true, false, Option, none, some, ok, List, [],
  ◌∷◌, inl, inr, ◌==◌, eq_iff, arith, if◌then◌else◌, first_some,
}
use k8s_health_ai.Kube.{ContainerStatus, Pod, Key}
use k8s_health_ai.Api.{ClusterDiagnosis}
use k8s_health_ai.Detect.{
  FailureType, classify, fingerprint, fingerprint_body, write_container_fingerprint,
}
use k8s_health_ai.Detect.Fingerprints.{fingerprint-restart_count}
use k8s_health_ai.Llm.{Diagnosis}
use k8s_health_ai.World.{Env, World, read_pod, read_diagnosis}
use k8s_health_ai.Controller.Changes.{set_ready, set_last_llm_call, is_current}
use k8s_health_ai.Controller.Reconcile.{finished, reconcile_inner}
use k8s_health_ai.Controller.Reconcile.Skips.{key_of, reconcile_current}

-- the diagnosis that an analysis with no error leaves behind: the two mutations of `cur`
abbrev pub settled :
    Pod → FailureType → String → ℕ → Diagnosis → String → ClusterDiagnosis → ClusterDiagnosis
settled pod ft container now diag stamp cur =
    set_last_llm_call stamp (set_ready pod ft container (fingerprint pod container) now diag cur)

-- the first status of that name
abbrev pub status_named : String → List ContainerStatus → Option ContainerStatus
status_named name = first_some λ (cs : ContainerStatus). if cs.name == name then some cs else none

-- the first status of the list has that name, or stands behind others
named-status :
    (name : String) (css : List ContainerStatus) (a : ContainerStatus)
    → status_named name css ≡ some a
    → (a.name ≡ name)
      × (first_some (fingerprint_body name) css ≡ some (write_container_fingerprint a))
unfolding first_some fingerprint_body
named-status name [] a h = absurd (ground (arith, h))
named-status name (c ∷ css) a h = elim (Bool-cases (c.name == name)) [
  | inl e ↦ ground (arith, e, h, (eq_iff c.name name).0 e)
  | inr e ↦ ground (arith, e, named-status name css a (ground (arith, e, h)))
]

fingerprint-named :
    (pod : Pod) (container : String) (a : ContainerStatus)
    → status_named container pod.status.container_statuses ≡ some a
    → fingerprint pod container ≡ write_container_fingerprint a
unfolding fingerprint
fingerprint-named pod container a h =
    ground (arith, (named-status container pod.status.container_statuses a h).1)

-- A regular container that was restarted makes the stored diagnosis stale: where the first statuses
-- of its name in the old and the new state of the pod differ in the restart count, the diagnosis
-- that was stored for the old state is not current for the new one.
pub restart-stale :
    (pod pod' : Pod) (ft : FailureType) (container : String) (a b : ContainerStatus) (now : ℕ)
    (diag : Diagnosis) (stamp : String) (cur : ClusterDiagnosis)
    → status_named container pod.status.container_statuses ≡ some a
    → status_named container pod'.status.container_statuses ≡ some b
    → a.restart_count ≢ b.restart_count
    → is_current (settled pod ft container now diag stamp cur) (fingerprint pod' container) ≡ false
unfolding is_current set_ready set_last_llm_call
restart-stale pod pod' ft container a b now diag stamp cur h k restarted =
    elim (Bool-cases (fingerprint pod container == fingerprint pod' container)) [
      | inl e ↦ absurd (
          restarted
            (fingerprint-restart_count a b
              ((named-status container pod.status.container_statuses a h).0
                ∙ sym (named-status container pod'.status.container_statuses b k).0)
              (sym (fingerprint-named pod container a h)
                ∙ (eq_iff (fingerprint pod container) (fingerprint pod' container)).0 e
                ∙ fingerprint-named pod' container b k)).0)
      | inr e ↦ ground (arith, e)
    ]

-- Where the cache shows the diagnosis that an analysis with no error leaves behind, and the pod has
-- not changed since, the next run ends with no error and no requeue after two reads: it writes
-- nothing and asks no LLM.
pub reconcile_settled :
    {S : Type 0} (env : Env S) (req : Key) (w : World S) (pod : Pod) (ft : FailureType)
    (container : String) (s s' : S) (now : ℕ) (diag : Diagnosis) (stamp : String)
    (cur : ClusterDiagnosis)
    → env.get_pod req w.state ≡ (ok pod, s)
    → classify (some pod) ≡ (ft, container, true)
    → env.get_cached (key_of env pod ft) s ≡ (ok (settled pod ft container now diag stamp cur), s')
    → reconcile_inner env req w ≡ (
      ok finished,
      record {
        state = s';
        calls =
            read_diagnosis (ok (settled pod ft container now diag stamp cur)) ∷ read_pod ∷ w.calls;
      },
    )
unfolding set_ready set_last_llm_call
reconcile_settled env req w pod ft container s s' now diag stamp cur got flagged cached =
    reconcile_current env req w pod ft container (settled pod ft container now diag stamp cur) s s'
      got flagged cached refl refl
