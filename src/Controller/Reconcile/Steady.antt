-- ===== src/Controller/Reconcile/Steady.antt =====
-- internal/controller/pod_controller.go: an analysis in a cluster where nothing else happens.
use mathlib.Core.Path.{subst}
use k8s_health_ai.Prelude.{ℕ, ◌≡◌, refl, String, true, some, Outcome, ok, eq_iff, arith}
use k8s_health_ai.Go.Errors.{Error}
use k8s_health_ai.Action.{◌>>=◌}
use k8s_health_ai.Kube.{Pod, Key}
use k8s_health_ai.Api.{ClusterDiagnosis}
use k8s_health_ai.Detect.{FailureType, classify, fingerprint}
use k8s_health_ai.Llm.{FailureContext, Diagnosis}
use k8s_health_ai.Llm.Reliable.{IsReliable, AllComplete}
use k8s_health_ai.Collect.Gather.{gather}
use k8s_health_ai.World.{Env, World, Run}
use k8s_health_ai.Controller.Changes.{set_analyzing, set_ready, set_last_llm_call, is_current}
use k8s_health_ai.Controller.Patch.{
  Mutation, Writer, status_writer, metadata_writer, read_with, get_diagnosis, attempt_write,
  after_write, patch_loop, patch_diagnosis, patch_diagnosis_status, patch_diagnosis_meta,
}
use k8s_health_ai.Controller.Patch.Liveness.{server_write, write-server_write}
use k8s_health_ai.Controller.Lifecycle.{Step, settle, stamp, SameContent}
use k8s_health_ai.Controller.Lifecycle.Server.{
  SameVersion, Merged, Step-SameVersion, Merged-SameContent,
}
use k8s_health_ai.Controller.Reconcile.{
  Result, finished, clock, count_diagnosis, announce, publish, after_llm, after_gather, analyze,
}
use k8s_health_ai.Controller.Reconcile.Skips.{key_of}
use k8s_health_ai.Controller.Reconcile.Succeeds.{Succeeds}
use k8s_health_ai.Controller.Reconcile.Cooperation.{
  Cooperates, clock-Succeeds, gather-Succeeds, patch_status-Succeeds,
}

module _ {S : Type 0} (env : Env S) (req : Key) (pod : Pod) (ft : FailureType) (container : String)
    (Good Live : S → Type 0) (Holds : ClusterDiagnosis → S → Type 0) where
  abbrev pub pod_diagnosis : Key
  pod_diagnosis = key_of env pod ft

  abbrev pub print : String
  print = fingerprint pod container

  -- the answer is the diagnosis that is held, and it still is
  abbrev pub Reads : ClusterDiagnosis → Outcome Error ClusterDiagnosis × S → Type 0
  Reads cd (r, s) = (r ≡ ok cd) × Holds cd s

  -- A cluster that answers, where `Holds cd s` says that the diagnosis of the pod is `cd` in a live
  -- state `s`, and where nothing else happens: the pod stays as it is, a read of the diagnosis gives
  -- the one that is held, from the cache too, and a write of that version replaces it.
  pub record Steady : Type 0 where
    pub cooperates : Cooperates env Good Live
    pub first_pod : (s : S) → Good s → (env.get_pod req s).0 ≡ ok pod
    pub same_pod :
        (cd : ClusterDiagnosis) (s : S)
        → Holds cd s
        → ((env.get_pod req s).0 ≡ ok pod) × Holds cd (env.get_pod req s).1
    pub alive : (cd : ClusterDiagnosis) (s : S) → Holds cd s → Live s
    pub held : (s : S) → Live s → (cd : ClusterDiagnosis) × Holds cd s
    pub found :
        (s : S) (cd : ClusterDiagnosis)
        → Good s
        → (env.get_cached pod_diagnosis s).0 ≡ ok cd
        → Holds cd (env.get_cached pod_diagnosis s).1
    pub caches :
        (cd : ClusterDiagnosis) (s : S) → Holds cd s → Reads cd (env.get_cached pod_diagnosis s)
    pub reads :
        (cd : ClusterDiagnosis) (s : S)
        → Holds cd s
        → Reads cd (read_with env env.api_reader pod_diagnosis s)
    pub stores :
        (writer : Writer) (cd b : ClusterDiagnosis) (s : S)
        → Holds cd s
        → SameVersion cd b
        → ((server_write env writer b s).0 ≡ ok tt)
          × (x : ClusterDiagnosis) × Holds x (server_write env writer b s).1
          × Merged writer cd b x
    pub ticks : (cd : ClusterDiagnosis) (s : S) → Holds cd s → Holds cd (env.now s).1

  -- the diagnosis that is held is Ready for the pod as it is
  abbrev pub IsDone : S → Type 0
  IsDone s = (cd : ClusterDiagnosis) × Holds cd s × (is_current cd print ≡ true)

  module _ (steady : Steady) (flagged : classify (some pod) ≡ (ft, container, true))
      (reliable : IsReliable env.diagnose) where
    -- a patch stores its mutation of the diagnosis that is held
    patch-Holds :
        (writer : Writer) (mutate : Mutation) (cd : ClusterDiagnosis) (w : World S)
        → Holds cd w.state
        → Step writer cd (mutate cd)
        → let (r, w') = patch_diagnosis env writer pod_diagnosis mutate w in
          (r ≡ ok tt) × (x : ClusterDiagnosis) × Holds x w'.state × SameContent (mutate cd) x
    unfolding patch_diagnosis patch_loop attempt_write after_write get_diagnosis
    patch-Holds writer mutate cd w h st =
        let (r, h1) = steady.reads cd w.state h in
        let (a, x, h2, merged) = steady.stores writer cd (mutate cd) _ h1 (Step-SameVersion st) in
        (
          rw (r, write-server_write, a) refl,
          x,
          rw (r, write-server_write, a) h2,
          Merged-SameContent writer st merged,
        )

    current-same :
        (b x : ClusterDiagnosis)
        → SameContent b x
        → is_current b print ≡ true
        → is_current x print ≡ true
    unfolding is_current
    current-same b x s h = rw s.status h

    -- an answer with a finished run, in a state where the diagnosis is done
    abbrev pub Ends : Outcome Error Result × World S → Type 0
    Ends (r, w) = (r ≡ ok finished) × IsDone w.state

    announce-Ends :
        (cd : ClusterDiagnosis) (w : World S)
        → Holds cd w.state
        → is_current cd print ≡ true
        → Ends (announce env ft pod_diagnosis w)
    unfolding announce count_diagnosis clock patch_diagnosis_meta is_current set_last_llm_call
    announce-Ends cd w h current =
        let w1 : World S = (clock env (count_diagnosis env ft "ready" w).1).1 in
        let ts = env.format_time (env.now w.state).0 in
        let (r, x, h', same) =
          patch-Holds metadata_writer (set_last_llm_call ts) cd w1 (steady.ticks cd w.state h)
            (stamp ts refl) in
        (rw r refl, rw r (x, h', current-same _ x same current))

    ready-current :
        (now : ℕ) (diag : Diagnosis) (cd : ClusterDiagnosis)
        → is_current (set_ready pod ft container print now diag cd) print ≡ true
    unfolding is_current set_ready
    ready-current now diag cd = ground (arith, (eq_iff print print).1 refl)

    publish-Ends :
        (now : ℕ) (diag : Diagnosis) (cd : ClusterDiagnosis) (w : World S)
        → Holds cd w.state
        → AllComplete (ok diag)
        → Ends (publish env pod ft container pod_diagnosis print now diag w)
    unfolding publish patch_diagnosis_status
    publish-Ends now diag cd w h complete =
        let (r, x, h', same) =
          patch-Holds status_writer (set_ready pod ft container print now diag) cd w h
            (settle pod ft container now diag flagged complete refl) in
        rw r (
          announce-Ends x
            (patch_diagnosis env status_writer pod_diagnosis
              (set_ready pod ft container print now diag) w).1
            h' (current-same _ x same (ready-current now diag cd)))

    ask-Ends :
        (now : ℕ) (fc : FailureContext) (w : World S)
        → Live w.state
        → Ends (after_gather env req pod ft container pod_diagnosis print now (ok fc) w)
    unfolding after_gather after_llm
    ask-Ends now fc w live =
        let (diag, e, live') = steady.cooperates.answers fc w.state live in
        let (cd, h) = steady.held _ live' in
        rw e (publish-Ends now diag cd _ h (subst AllComplete e (reliable fc w.state)))

    -- a run that goes on from a live state
    bind-Ends :
        {A : Type 0} (m : Run S A) (f : A → Run S Result) (w : World S)
        → Succeeds Live m
        → Live w.state
        → ((a : A) (w' : World S) → Live w'.state → Ends (f a w'))
        → Ends ((m >>= f) w)
    bind-Ends m f w h live k = let (a, e, live') = h.ends w live in rw e (k a (m w).1 live')

    pub analyze-Ends :
        (w : World S) → Live w.state → Ends (analyze env req pod ft container pod_diagnosis print w)
    unfolding analyze
    analyze-Ends w live =
        bind-Ends _ _ w (clock-Succeeds env Good Live steady.cooperates) live λ now w1 live1.
          bind-Ends _ _ w1
            (patch_status-Succeeds env Good Live steady.cooperates pod_diagnosis set_analyzing)
            live1
            λ u w2 live2.
              let (fc, e, live3) =
                (gather-Succeeds env Good Live steady.cooperates pod container ft).ends w2 live2 in
              rw e (ask-Ends now fc (gather env pod container ft w2).1 live3)
