-- ===== src/Controller/Lifecycle/Server.antt =====
-- internal/controller/pod_controller.go: what is documented of the API server that the reconciler
-- relies on: versions, and what a write replaces.
use mathlib.Core.Path.{subst}
use k8s_health_ai.Prelude.{ℕ, ◌≡◌, refl, sym, String, Bool, ok, err, ◌⊎◌, inl, inr}
use k8s_health_ai.Kube.{Pod, Key}
use k8s_health_ai.Api.{ClusterDiagnosis, empty_status}
use k8s_health_ai.Llm.{FailureContext}
use k8s_health_ai.World.{Answer, Env}
use k8s_health_ai.Controller.Changes.{set_analyzing, set_ready, set_error, set_last_llm_call}
use k8s_health_ai.Controller.Patch.{Writer, status_writer, metadata_writer, read_with}
use k8s_health_ai.Controller.Patch.Liveness.{server_write}
use k8s_health_ai.Controller.Lifecycle.{Step, begin, settle, break, stamp, SameContent, Reach}

-- the same version of the same object
abbrev pub SameVersion : ClusterDiagnosis → ClusterDiagnosis → Type 0
SameVersion a b =
    (a.metadata.name ≡ b.metadata.name)
    × (a.metadata.namespace ≡ b.metadata.namespace)
    × (a.metadata.resource_version ≡ b.metadata.resource_version)

-- What the server stores for `b` in place of the version `y`: an update of the status takes nothing
-- but the status, and any other update all but the status.
abbrev pub Merged : Writer → ClusterDiagnosis → ClusterDiagnosis → ClusterDiagnosis → Type 0
Merged status_writer y b x = SameContent (record y { status = b.status }) x
Merged metadata_writer y b x = SameContent (record b { status = y.status }) x

module _ {S : Type 0} (known : S → ClusterDiagnosis → Type 0) where
  -- a version that was stored before, or one that another client has stored meanwhile
  abbrev pub Older : S → ClusterDiagnosis → Type 0
  Older s x = known s x ⊎ Reach x

  abbrev pub OnlyOlder : S → S → Type 0
  OnlyOlder s s' = (x : ClusterDiagnosis) → known s' x → Older s x

  -- A write that is accepted replaces the stored version that it names; one that is refused replaces
  -- none.
  abbrev pub Replaces : Writer → ClusterDiagnosis → S → Answer × S → Type 0
  Replaces writer b s (ok u, s') =
      (x : ClusterDiagnosis)
      → known s' x
      → Older s x ⊎ ((y : ClusterDiagnosis) × known s' y × SameVersion y b × Merged writer y b x)
  Replaces writer b s (err e, s') = OnlyOlder s s'

  -- An object is created as it is handed over, but for the status, which is left empty.
  abbrev pub Creates : ClusterDiagnosis → S → Answer × S → Type 0
  Creates cd s (ok u, s') =
      (x : ClusterDiagnosis)
      → known s' x
      → Older s x ⊎ SameContent (record cd { status = empty_status }) x
  Creates cd s (err e, s') = OnlyOlder s s'

  -- What is documented of the API server. `known s` are the versions of diagnoses that it has stored
  -- up to the state `s`. They are told apart by their resource versions; a read returns one of them;
  -- a write names the version that it replaces; other calls store nothing. During any call, other
  -- clients may store versions of their own, which are of a life.
  pub record Server (env : Env S) : Type 0 where
    pub one_version :
        (s : S) (a b : ClusterDiagnosis) → known s a → known s b → SameVersion a b → a ≡ b
    pub reads :
        (key : Key) (s : S) (cd : ClusterDiagnosis)
        → (read_with env env.api_reader key s).0 ≡ ok cd
        → known (read_with env env.api_reader key s).1 cd
    pub writes :
        (writer : Writer) (b : ClusterDiagnosis) (s : S)
        → Replaces writer b s (server_write env writer b s)
    pub remembers :
        (writer : Writer) (b x : ClusterDiagnosis) (s : S)
        → known s x
        → known (server_write env writer b s).1 x
    pub creates : (cd : ClusterDiagnosis) (s : S) → Creates cd s (env.create cd s)
    pub owns :
        (pod : Pod) (cd owned : ClusterDiagnosis)
        → env.set_controller_reference pod cd ≡ ok owned
        → SameContent cd owned
    pub quiet_pod : (key : Key) (s : S) → OnlyOlder s (env.get_pod key s).1
    pub quiet_cache : (key : Key) (s : S) → OnlyOlder s (env.get_cached key s).1
    pub quiet_read : (key : Key) (s : S) → OnlyOlder s (read_with env env.api_reader key s).1
    pub quiet_events : (key : Key) (s : S) → OnlyOlder s (env.list_events key s).1
    pub quiet_logs :
        (key : Key) (container : String) (previous : Bool) (s : S)
        → OnlyOlder s (env.get_logs key container previous s).1
    pub quiet_llm : (fc : FailureContext) (s : S) → OnlyOlder s (env.diagnose fc s).1
    pub quiet_clock : (s : S) → OnlyOlder s (env.now s).1
    pub quiet_sleep : (n : ℕ) (s : S) → OnlyOlder s (env.sleep n s)

  -- all versions are of a life
  abbrev pub AllReach : S → Type 0
  AllReach s = (x : ClusterDiagnosis) → known s x → Reach x

  pub older-Reach : {s s' : S} → OnlyOlder s s' → AllReach s → AllReach s'
  older-Reach older h x k = elim (older x k) [ inl k' ↦ h x k' | inr r ↦ r ]

-- A step changes neither the version nor what the writer does not store.
pub Step-SameVersion :
    {writer : Writer} {a b : ClusterDiagnosis} → Step writer a b → SameVersion a b
unfolding set_analyzing set_ready set_error set_last_llm_call
Step-SameVersion {a = a} (begin e) = subst (SameVersion a) (sym e) (refl, refl, refl)
Step-SameVersion {a = a} (settle pod ft container now diag flagged complete e) =
    subst (SameVersion a) (sym e) (refl, refl, refl)
Step-SameVersion {a = a} (break msg e) = subst (SameVersion a) (sym e) (refl, refl, refl)
Step-SameVersion {a = a} (stamp ts e) = subst (SameVersion a) (sym e) (refl, refl, refl)

-- the parts that the step's writer stores, taken alone, are all that the step changes
abbrev Whole : Writer → ClusterDiagnosis → ClusterDiagnosis → Type 0
Whole status_writer a b = record a { status = b.status } ≡ b
Whole metadata_writer a b = record b { status = a.status } ≡ b

Step-Whole : {writer : Writer} {a b : ClusterDiagnosis} → Step writer a b → Whole writer a b
unfolding set_analyzing set_ready set_error set_last_llm_call
Step-Whole {a = a} (begin e) = subst (Whole status_writer a) (sym e) refl
Step-Whole {a = a} (settle pod ft container now diag flagged complete e) =
    subst (Whole status_writer a) (sym e) refl
Step-Whole {a = a} (break msg e) = subst (Whole status_writer a) (sym e) refl
Step-Whole {a = a} (stamp ts e) = subst (Whole metadata_writer a) (sym e) refl

pub Merged-SameContent :
    (writer : Writer) {a b x : ClusterDiagnosis}
    → Step writer a b
    → Merged writer a b x
    → SameContent b x
Merged-SameContent status_writer {x = x} st m = subst (λ c. SameContent c x) (Step-Whole st) m
Merged-SameContent metadata_writer {x = x} st m = subst (λ c. SameContent c x) (Step-Whole st) m
