-- ===== src/Controller/Lifecycle/Stored.antt =====
-- internal/controller/pod_controller.go: the diagnoses that the API server stores, under any number
-- of runs of the reconciler and of other clients that keep to the life of a diagnosis.
use mathlib.Core.Path.{subst}
use k8s_health_ai.Prelude.{◌≡◌, sym, ◌∙◌, String, true, some, ok, err, List, [], ◌∷◌, inl, inr}
use k8s_health_ai.Kube.{Pod, Key}
use k8s_health_ai.Api.{ClusterDiagnosis, empty_status}
use k8s_health_ai.Detect.{FailureType, classify}
use k8s_health_ai.Llm.Reliable.{IsReliable}
use k8s_health_ai.Collect.Gather.{pod_key}
use k8s_health_ai.World.{Answer, Env, World}
use k8s_health_ai.Controller.Changes.{new_diagnosis}
use k8s_health_ai.Controller.Patch.{
  Writer, status_writer, metadata_writer, read_with, get_diagnosis, write,
}
use k8s_health_ai.Controller.Reconcile.{reconcile_inner}
use k8s_health_ai.Controller.Lifecycle.{Step, SameContent, Reach, born, later, kept}
use k8s_health_ai.Controller.Lifecycle.Server.{
  Merged, Replaces, Creates, Server, AllReach, older-Reach, Step-SameVersion, Merged-SameContent,
}
use k8s_health_ai.Controller.Lifecycle.Sound.{Sound, Reach-Sound}
use k8s_health_ai.Controller.Lifecycle.Watch.{Watch}
use k8s_health_ai.Controller.Lifecycle.Maintained.{reconcile_inner-Maintains}

module _ {S : Type 0} (env : Env S) (known : S → ClusterDiagnosis → Type 0)
    (server : Server known env) where
  -- no update is lost: the version that is replaced is the one that was read
  replaced-Reach :
      (writer : Writer) (a b : ClusterDiagnosis) (s : S) (r : Answer × S)
      → Step writer a b
      → AllReach known s
      → known s a
      → ((x : ClusterDiagnosis) → known s x → known r.1 x)
      → Replaces known writer b s r
      → AllReach known r.1
  replaced-Reach writer a b s (err e, s') st h seen remembers replaces x k =
      older-Reach known replaces h x k
  replaced-Reach writer a b s (ok u, s') st h seen remembers replaces x k = elim (replaces x k) [
    | inl (inl k') ↦ h x k'
    | inl (inr r) ↦ r
    | inr (y, stored, (n, ns, v), merged) ↦
        let (n', ns', v') = Step-SameVersion st in
        let same : y ≡ a =
          server.one_version s' y a stored (remembers a seen)
            (n ∙ sym n', ns ∙ sym ns', v ∙ sym v') in
        kept (later (h a seen) st)
          (Merged-SameContent writer st (subst (λ z. Merged writer z b x) same merged))
  ]

  write-AllReach :
      (writer : Writer) (a b : ClusterDiagnosis) (w : World S)
      → Step writer a b
      → AllReach known w.state
      → known w.state a
      → AllReach known (write env writer b w).1.state
  unfolding write
  write-AllReach status_writer a b w st h seen =
      replaced-Reach status_writer a b w.state _ st h seen
        (λ x. server.remembers status_writer b x w.state) (server.writes status_writer b w.state)
  write-AllReach metadata_writer a b w st h seen =
      replaced-Reach metadata_writer a b w.state _ st h seen
        (λ x. server.remembers metadata_writer b x w.state)
        (server.writes metadata_writer b w.state)

  -- what is created is new
  fresh-SameContent :
      (pod : Pod) (ft : FailureType) (name : String) {cd x : ClusterDiagnosis}
      → SameContent (new_diagnosis pod ft name) cd
      → SameContent (record cd { status = empty_status }) x
      → SameContent (new_diagnosis pod ft name) x
  unfolding new_diagnosis
  fresh-SameContent pod ft name c m = record {
    name = m.name ∙ c.name;
    namespace = m.namespace ∙ c.namespace;
    annotations = m.annotations ∙ c.annotations;
    spec = m.spec ∙ c.spec;
    status = m.status;
  }

  created-AllReach :
      (pod : Pod) (ft : FailureType) (container name : String) (cd : ClusterDiagnosis) (s : S)
      (r : Answer × S)
      → classify (some pod) ≡ (ft, container, true)
      → SameContent (new_diagnosis pod ft name) cd
      → Creates known cd s r
      → AllReach known s
      → AllReach known r.1
  created-AllReach pod ft container name cd s (err e, s') flagged c creates h x k =
      older-Reach known creates h x k
  created-AllReach pod ft container name cd s (ok u, s') flagged c creates h x k =
      elim (creates x k) [
        | inl (inl k') ↦ h x k'
        | inl (inr r) ↦ r
        | inr m ↦ born pod ft container name flagged (fresh-SameContent pod ft name c m)
      ]

  stored-Watch : Watch env (λ w. AllReach known w.state) (λ cd w. known w.state cd)
  unfolding get_diagnosis k8s_health_ai.Collect.Gather.list_pod_events
      k8s_health_ai.Collect.Gather.try_logs k8s_health_ai.Controller.Reconcile.count_diagnosis
      k8s_health_ai.Controller.Reconcile.clock k8s_health_ai.Controller.Patch.pause
  stored-Watch = record {
    pods = λ req. record { ends = λ w. older-Reach known (server.quiet_pod req w.state) };
    cached = λ key. record { ends = λ w. older-Reach known (server.quiet_cache key w.state) };
    reads = λ key. record { ends = λ w. older-Reach known (server.quiet_read key w.state) };
    sees = λ key w {cd} h e. server.reads key w.state cd e;
    writes = write-AllReach;
    creates = λ pod ft container name cd flagged owned. record {
      ends = λ w.
          created-AllReach pod ft container name cd w.state _ flagged (server.owns pod _ cd owned)
            (server.creates cd w.state);
    };
    events = λ pod. record { ends = λ w. older-Reach known (server.quiet_events _ w.state) };
    logs = λ pod container previous. record {
      ends = λ w. older-Reach known (server.quiet_logs _ _ _ w.state);
    };
    asks = λ fc. record { ends = λ w. older-Reach known (server.quiet_llm fc w.state) };
    counts = λ ft phase. record { ends = λ w h. h };
    ticks = record { ends = λ w. older-Reach known (server.quiet_clock w.state) };
    pauses = λ n. record { ends = λ w. older-Reach known (server.quiet_sleep n w.state) };
  }

  -- the requests of the work queue, one run after the other
  abbrev pub after_runs : List Key → World S → World S
  after_runs [] w = w
  after_runs (req ∷ reqs) w = after_runs reqs (reconcile_inner env req w).1

  after_runs-AllReach :
      IsReliable env.diagnose
      → (reqs : List Key) (w : World S) → AllReach known w.state
      → AllReach known (after_runs reqs w).state
  after_runs-AllReach reliable [] w h = h
  after_runs-AllReach reliable (req ∷ reqs) w h = after_runs-AllReach reliable reqs _ (
      (reconcile_inner-Maintains env (λ w. AllReach known w.state) (λ cd w. known w.state cd)
          stored-Watch reliable req).ends
        w h)

  -- Where the API server does what is documented of it, the LLM's diagnoses are complete and other
  -- clients store only what is of a life, every version of a diagnosis that is stored after any
  -- number of runs, each ended in whatever way, is of a life, and so consistent.
  pub after_runs-Sound :
      IsReliable env.diagnose
      → (reqs : List Key) (w : World S) → AllReach known w.state
      → (x : ClusterDiagnosis) → known (after_runs reqs w).state x
      → Reach x × Sound x
  after_runs-Sound reliable reqs w h x k =
      let r = after_runs-AllReach reliable reqs w h x k in (r, Reach-Sound r)
