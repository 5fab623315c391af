-- ===== src/Controller/Lifecycle/Sound.antt =====
-- internal/controller/pod_controller.go: what holds of every diagnosis in its life.
use mathlib.Core.Path.{subst}
use k8s_health_ai.Prelude.{ℕ, ◌≡◌, ◌⊎◌, inl, inr, refl, sym, ◌∙◌, String, true, some}
use k8s_health_ai.Kube.{Pod}
use k8s_health_ai.Api.{
  ClusterDiagnosis, ClusterDiagnosisStatus, empty_status, phase_analyzing, phase_ready, phase_error,
}
use k8s_health_ai.Collect.{build_resource_usage}
use k8s_health_ai.Remediation.{for_failure}
use k8s_health_ai.Detect.{FailureType, classify, fingerprint}
use k8s_health_ai.Llm.{Diagnosis}
use k8s_health_ai.Llm.Reliable.{IsComplete}
use k8s_health_ai.Controller.Patch.{Writer}
use k8s_health_ai.Controller.Changes.{
  new_diagnosis, set_analyzing, set_ready, set_error, set_last_llm_call,
}
use k8s_health_ai.Controller.Lifecycle.{
  Step, begin, settle, break, stamp, SameContent, Reach, born, later, kept,
}

-- No analysis was stored yet.
pub record Blank (st : ClusterDiagnosisStatus) : Type 0 where
  pub root_cause : st.root_cause ≡ ""
  pub severity : st.severity ≡ ""
  pub recommended_fix : st.recommended_fix ≡ ""
  pub model : st.model ≡ ""
  pub never : st.last_updated ≡ empty_status.last_updated
  pub no_print : st.observed_fingerprint ≡ ""
  pub no_usage : st.resource_usage ≡ empty_status.resource_usage
  pub no_hints : st.remediations ≡ empty_status.remediations

-- All the fields of an analysis stem from one analysis, of one pod in one state, with one answer of
-- the LLM.
pub record Filled (st : ClusterDiagnosisStatus) : Type 0 where
  pub pod : Pod
  pub failure_type : FailureType
  pub container : String
  pub now : ℕ
  pub answer : Diagnosis
  pub flagged : classify (some pod) ≡ (failure_type, container, true)
  pub complete : IsComplete answer
  pub root_cause : st.root_cause ≡ answer.root_cause
  pub severity : st.severity ≡ answer.severity
  pub recommended_fix : st.recommended_fix ≡ answer.recommended_fix
  pub model : st.model ≡ answer.model
  pub dated : st.last_updated ≡ some now
  pub print : st.observed_fingerprint ≡ fingerprint pod container
  pub usage : st.resource_usage ≡ build_resource_usage (some pod) container
  pub hints : st.remediations ≡ for_failure failure_type

-- The phase goes with the fields: without a phase, there is no analysis; with the phase Ready, there
-- is one; only with the phase Error is there a message.
abbrev pub FitsPhase : ClusterDiagnosisStatus → Type 0
FitsPhase st =
    ((st.phase ≡ "") × Blank st × (st.message ≡ ""))
    ⊎ ((st.phase ≡ phase_analyzing) × (Blank st ⊎ Filled st) × (st.message ≡ ""))
    ⊎ ((st.phase ≡ phase_ready) × Filled st × (st.message ≡ ""))
    ⊎ ((st.phase ≡ phase_error) × (Blank st ⊎ Filled st))

-- The diagnosis is one of a pod, as it was created, and its status is consistent.
pub record Sound (cd : ClusterDiagnosis) : Type 0 where
  pub subject :
      (pod : Pod) × (ft : FailureType) × (container : String) × (classify (some pod)
        ≡ (ft, container, true))
      × (cd.spec ≡ (new_diagnosis pod ft "").spec)
  pub status : FitsPhase cd.status

analysis-cases : (st : ClusterDiagnosisStatus) → FitsPhase st → Blank st ⊎ Filled st
analysis-cases st (inl (p, b, m)) = inl b
analysis-cases st (inr (inl (p, e, m))) = e
analysis-cases st (inr (inr (inl (p, f, m)))) = inr f
analysis-cases st (inr (inr (inr (p, e)))) = e

-- What was analysed stays, whatever the phase and the message.
abbrev with_phase : String → String → ClusterDiagnosisStatus → ClusterDiagnosisStatus
with_phase phase msg st = record st { phase = phase; message = msg }

analysis-kept :
    (phase msg : String) (st : ClusterDiagnosisStatus)
    → Blank st ⊎ Filled st
    → Blank (with_phase phase msg st) ⊎ Filled (with_phase phase msg st)
analysis-kept phase msg st (inl b) = inl (record {
  root_cause = b.root_cause;
  severity = b.severity;
  recommended_fix = b.recommended_fix;
  model = b.model;
  never = b.never;
  no_print = b.no_print;
  no_usage = b.no_usage;
  no_hints = b.no_hints;
})
analysis-kept phase msg st (inr f) = inr (record {
  pod = f.pod;
  failure_type = f.failure_type;
  container = f.container;
  now = f.now;
  answer = f.answer;
  flagged = f.flagged;
  complete = f.complete;
  root_cause = f.root_cause;
  severity = f.severity;
  recommended_fix = f.recommended_fix;
  model = f.model;
  dated = f.dated;
  print = f.print;
  usage = f.usage;
  hints = f.hints;
})

begin-FitsPhase : (a : ClusterDiagnosis) → FitsPhase a.status → FitsPhase (set_analyzing a).status
unfolding set_analyzing
begin-FitsPhase a h = inr (inl (refl, analysis-kept _ _ a.status (analysis-cases _ h), refl))

break-FitsPhase :
    (msg : String) (a : ClusterDiagnosis) → FitsPhase a.status → FitsPhase (set_error msg a).status
unfolding set_error
break-FitsPhase msg a h = inr (inr (inr (refl, analysis-kept _ _ a.status (analysis-cases _ h))))

settle-FitsPhase :
    (pod : Pod) (ft : FailureType) (container : String) (now : ℕ) (diag : Diagnosis)
    (a : ClusterDiagnosis)
    → classify (some pod) ≡ (ft, container, true)
    → IsComplete diag
    → FitsPhase (set_ready pod ft container (fingerprint pod container) now diag a).status
unfolding set_ready
settle-FitsPhase pod ft container now diag a flagged complete = inr (
    inr (
      inl (
        refl,
        record {
          pod = pod;
          failure_type = ft;
          container = container;
          now = now;
          answer = diag;
          flagged = flagged;
          complete = complete;
          root_cause = refl;
          severity = refl;
          recommended_fix = refl;
          model = refl;
          dated = refl;
          print = refl;
          usage = refl;
          hints = refl;
        },
        refl,
      )))

stamp-Sound : (ts : String) (a : ClusterDiagnosis) → Sound a → Sound (set_last_llm_call ts a)
unfolding set_last_llm_call
stamp-Sound ts a h = record { subject = h.subject; status = h.status }

-- Every write of the reconciler keeps a diagnosis consistent.
pub Step-Sound : {writer : Writer} {a b : ClusterDiagnosis} → Step writer a b → Sound a → Sound b
unfolding set_analyzing set_ready set_error
Step-Sound {a = a} (begin e) h =
    subst Sound (sym e) (record { subject = h.subject; status = begin-FitsPhase a h.status })
Step-Sound {a = a} (settle pod ft container now diag flagged complete e) h =
    subst Sound (sym e) (record {
      subject = h.subject;
      status = settle-FitsPhase pod ft container now diag a flagged complete;
    })
Step-Sound {a = a} (break msg e) h =
    subst Sound (sym e) (record { subject = h.subject; status = break-FitsPhase msg a h.status })
Step-Sound {a = a} (stamp ts e) h = subst Sound (sym e) (stamp-Sound ts a h)

same-Sound : {a b : ClusterDiagnosis} → SameContent a b → Sound a → Sound b
same-Sound s h =
    let (pod, ft, container, flagged, e) = h.subject in
    record {
      subject = (pod, ft, container, flagged, s.spec ∙ e);
      status = subst FitsPhase (sym s.status) h.status;
    }

born-Sound :
    (pod : Pod) (ft : FailureType) (container name : String)
    → classify (some pod) ≡ (ft, container, true)
    → Sound (new_diagnosis pod ft name)
unfolding new_diagnosis
born-Sound pod ft container name flagged = record {
  subject = (pod, ft, container, flagged, refl);
  status = inl (
    refl,
    record {
      root_cause = refl;
      severity = refl;
      recommended_fix = refl;
      model = refl;
      never = refl;
      no_print = refl;
      no_usage = refl;
      no_hints = refl;
    },
    refl,
  );
}

-- A diagnosis is consistent all its life: its target is the pod, flagged with its failure type, for
-- which it was created; its phase is empty, Analyzing, Ready or Error; it holds no analysis, or all
-- the fields of one analysis of a flagged pod with one complete answer of the LLM; it holds none
-- without a phase, and one if it is Ready; and it has a message only in the phase Error.
pub Reach-Sound : {cd : ClusterDiagnosis} → Reach cd → Sound cd
Reach-Sound (born pod ft container name flagged s) =
    same-Sound s (born-Sound pod ft container name flagged)
Reach-Sound (later r st) = Step-Sound st (Reach-Sound r)
Reach-Sound (kept r s) = same-Sound s (Reach-Sound r)
