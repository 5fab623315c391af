-- ===== src/Controller/Reconcile/Settles.antt =====
-- internal/controller/pod_controller.go: how the runs on a pod that does not change come to rest.
use k8s_health_ai.Prelude.{
  ℕ, zero, suc, ◌≡◌, refl, ◌∙◌, ap, ◌⊎◌, inl, inr, ◌==◌, String, Bool-cases, true, Option, none,
  some, Option-cases, Outcome, ok, eq_iff, arith,
}
use k8s_health_ai.Prelude.Int.{ℤ}
use k8s_health_ai.Go.Errors.{Error}
use k8s_health_ai.Action.{continue, ◌>>◌}
use k8s_health_ai.Kube.{Pod, Key}
use k8s_health_ai.Api.{ClusterDiagnosis, phase_ready}
use k8s_health_ai.Detect.{FailureType, classify, fingerprint}
use k8s_health_ai.Llm.Reliable.{IsReliable}
use k8s_health_ai.World.{Env, World, writes, llm_calls}
use k8s_health_ai.Controller.Changes.{new_diagnosis, is_current}
use k8s_health_ai.Controller.Rate.{last_llm_call, requeue_delay}
use k8s_health_ai.Controller.Patch.{get_diagnosis}
use k8s_health_ai.Controller.Reconcile.{
  Result, finished, requeue_in, clock, check_rate, rate_limit, after_rate_limit, refresh,
  after_create, create_diagnosis, after_lookup, ensure_diagnosis, diagnose_pod, handle_pod,
  after_get_pod, reconcile_inner,
}
use k8s_health_ai.Controller.Reconcile.Skips.{key_of, reconcile_current}
use k8s_health_ai.Controller.Reconcile.Steady.{Steady, IsDone, analyze-Ends}

module _ {S : Type 0} (env : Env S) (req : Key) (pod : Pod) (ft : FailureType) (container : String)
    (Good Live : S → Type 0) (Holds : ClusterDiagnosis → S → Type 0) where
  abbrev pod_diagnosis : Key
  pod_diagnosis = key_of env pod ft

  abbrev print : String
  print = fingerprint pod container

  -- the delay is one that the rate limit gives
  abbrev pub IsDelay : ℤ → Type 0
  IsDelay d = (now : ℕ) × (ts : ℕ) × (requeue_delay now (some ts) ≡ some d)

  -- The run ends with the pod's diagnosis done, or is to be repeated behind the rate limit.
  abbrev pub Settles : Outcome Error Result × S → Type 0
  Settles (r, s) =
      ((r ≡ ok finished) × (IsDone env req pod ft container Good Live Holds s))
      ⊎ ((d : ℤ) × (r ≡ ok (requeue_in d)) × IsDelay d × Live s)

  module _ (steady : Steady env req pod ft container Good Live Holds)
      (flagged : classify (some pod) ≡ (ft, container, true))
      (reliable : IsReliable env.diagnose) where
    -- The answer of the rate limit: it lets the pod through, or gives a delay.
    abbrev Limits : ClusterDiagnosis → Outcome Error (Option ℤ) × World S → Type 0
    Limits cd (r, w) =
        ((r ≡ ok none) ⊎ ((d : ℤ) × (r ≡ ok (some d)) × IsDelay d)) × Holds cd w.state

    check_rate-Limits :
        (cd : ClusterDiagnosis) (t : Option ℕ) (w : World S)
        → Holds cd w.state
        → Limits cd (check_rate env t w)
    unfolding check_rate clock
    check_rate-Limits cd none w h = (inl refl, h)
    check_rate-Limits cd (some ts) w h =
        elim (Option-cases (requeue_delay (env.now w.state).0 (some ts))) [
          | inl e ↦ (inl (ap ok e), steady.ticks cd w.state h)
          | inr (d, e) ↦ (inr (d, ap ok e, ((env.now w.state).0, ts, e)), steady.ticks cd w.state h)
        ]

    rate_limit-Limits :
        (cd : ClusterDiagnosis) (w : World S) → Holds cd w.state → Limits cd (rate_limit env cd w)
    unfolding rate_limit
    rate_limit-Limits cd w h = elim (Bool-cases (last_llm_call cd == "")) [
      | inl e ↦ rw e (inl refl, h)
      | inr e ↦ rw e (check_rate-Limits cd (env.parse_time (last_llm_call cd)) w h)
    ]

    abbrev SettlesIn : Outcome Error Result × World S → Type 0
    SettlesIn (r, w) = Settles (r, w.state)

    limited-Settles :
        (cd : ClusterDiagnosis) (r : Outcome Error (Option ℤ)) (w : World S)
        → Limits cd (r, w)
        → SettlesIn (continue r (after_rate_limit env req pod ft container pod_diagnosis print) w)
    unfolding after_rate_limit
    limited-Settles cd r w (inl e, h) = rw e (
        inl (
          analyze-Ends env req pod ft container Good Live Holds steady flagged reliable w
            (steady.alive cd w.state h)))
    limited-Settles cd r w (inr (d, e, delay), h) =
        rw e (inr (d, refl, delay, steady.alive cd w.state h))

    refresh-Settles :
        (cd : ClusterDiagnosis) (w : World S)
        → Holds cd w.state
        → SettlesIn (refresh env req pod ft container pod_diagnosis cd w)
    unfolding refresh
    refresh-Settles cd w h = elim (Bool-cases (is_current cd print)) [
      | inl e ↦ rw e (inl (refl, (cd, h, e)))
      | inr e ↦ rw e (
          limited-Settles cd (rate_limit env cd w).0 (rate_limit env cd w).1
            (rate_limit-Limits cd w h))
    ]

    -- the diagnosis that is held, from an action that answers with it
    abbrev Gets : Outcome Error ClusterDiagnosis × World S → Type 0
    Gets (r, w) = (cd : ClusterDiagnosis) × (r ≡ ok cd) × Holds cd w.state

    get_diagnosis-Gets : (w : World S) → Live w.state → Gets (get_diagnosis env pod_diagnosis w)
    unfolding get_diagnosis
    get_diagnosis-Gets w live =
        let (cd, h) = steady.held w.state live in
        let (r, h') = steady.reads cd w.state h in (cd, r, h')

    get_twice-Gets :
        (w : World S)
        → Live w.state
        → Gets ((get_diagnosis env pod_diagnosis >> get_diagnosis env pod_diagnosis) w)
    get_twice-Gets w live =
        let (cd, r, h) = get_diagnosis-Gets w live in
        rw r (get_diagnosis-Gets (get_diagnosis env pod_diagnosis w).1 (steady.alive cd _ h))

    create_diagnosis-Gets :
        (w : World S) → Good w.state → Gets (create_diagnosis env pod ft pod_diagnosis w)
    unfolding create_diagnosis after_create
    create_diagnosis-Gets w g =
        let (owned, o) = steady.cooperates.owns pod (new_diagnosis pod ft pod_diagnosis.name) in
        elim (steady.cooperates.creates owned w.state g) [
          | inl (u, e, live) ↦ rw (o, e) (get_diagnosis-Gets _ live)
          | inr (x, e, exists, live) ↦ rw (o, e, exists) (get_twice-Gets _ live)
        ]

    ensure_diagnosis-Gets :
        (w : World S) → Good w.state → Gets (ensure_diagnosis env pod ft pod_diagnosis w)
    unfolding ensure_diagnosis after_lookup
    ensure_diagnosis-Gets w g = elim (steady.cooperates.finds pod_diagnosis w.state g) [
      | inl (cd, e, live) ↦ rw e (cd, refl, steady.found w.state cd g e)
      | inr (x, e, absent, g1) ↦ rw (e, absent) (create_diagnosis-Gets _ g1)
    ]

    diagnose_pod-Settles :
        (w : World S) → Good w.state → SettlesIn (diagnose_pod env req pod ft container w)
    unfolding diagnose_pod
    diagnose_pod-Settles w g =
        let (cd, e, h) = ensure_diagnosis-Gets w g in rw e (refresh-Settles cd _ h)

    handle_pod-Settles : (w : World S) → Good w.state → SettlesIn (handle_pod env req pod w)
    unfolding handle_pod
    handle_pod-Settles w g = rw flagged (diagnose_pod-Settles w g)

    first-Settles : (w : World S) → Good w.state → SettlesIn (reconcile_inner env req w)
    unfolding reconcile_inner after_get_pod
    first-Settles w g =
        let (p, e, g1) = steady.cooperates.gets_pod req w.state g in
        rw (steady.first_pod w.state g) (handle_pod-Settles _ g1)

    -- so many runs
    unfoldable pub again : ℕ → World S → World S
    again zero w = w
    again (suc n) w = again n (reconcile_inner env req w).1

    -- a run where the diagnosis is done: it only reads
    IsDone-quiet :
        (w : World S)
        → (IsDone env req pod ft container Good Live Holds w.state)
        → let (r, w') = reconcile_inner env req w in
          (r ≡ ok finished)
          × (IsDone env req pod ft container Good Live Holds w'.state)
          × (writes w'.calls ≡ writes w.calls)
          × (llm_calls w'.calls ≡ llm_calls w.calls)
    unfolding is_current writes llm_calls
    IsDone-quiet w (cd, h, current) =
        let (p, h1) = steady.same_pod cd w.state h in
        let (r, h2) = steady.caches cd _ h1 in
        rw
          (reconcile_current env req w pod ft container cd _ _
            (ap (λ x. (x, (env.get_pod req w.state).1)) p) flagged
            (ap (λ x. (x, (env.get_cached pod_diagnosis (env.get_pod req w.state).1).1)) r)
            (ground (arith, current, eq_iff cd.status.phase phase_ready))
            (ground (arith, current, eq_iff cd.status.observed_fingerprint print)))
          (refl, (cd, h2, current), refl, refl)

    IsDone-again :
        (n : ℕ) (w : World S)
        → IsDone env req pod ft container Good Live Holds w.state
        → (writes (again n w).calls ≡ writes w.calls)
          × (llm_calls (again n w).calls ≡ llm_calls w.calls)
    unfolding again
    IsDone-again zero w h = (refl, refl)
    IsDone-again (suc n) w h =
        let (r, done, same_writes, same_llm) = IsDone-quiet w h in
        let (later_writes, later_llm) = IsDone-again n (reconcile_inner env req w).1 done in
        (later_writes ∙ same_writes, later_llm ∙ same_llm)

    -- The first run leaves the diagnosis done, and no later run writes or asks the LLM; or it is to be
    -- repeated behind the rate limit.
    abbrev pub AtRest : Outcome Error Result × World S → Type 0
    AtRest (r, w) =
        ((r ≡ ok finished)
          × ((n : ℕ)
              → (writes (again n w).calls ≡ writes w.calls)
                × (llm_calls (again n w).calls ≡ llm_calls w.calls)))
        ⊎ ((d : ℤ) × (r ≡ ok (requeue_in d)) × IsDelay d)

    SettlesIn-AtRest : (x : Outcome Error Result × World S) → SettlesIn x → AtRest x
    SettlesIn-AtRest (r, w) (inl (e, done)) = inl (e, λ n. IsDone-again n w done)
    SettlesIn-AtRest (r, w) (inr (d, e, delay, live)) = inr (d, e, delay)

    -- In a cluster and with an LLM that answer, where nothing happens to a flagged pod and its
    -- diagnosis but the reconciler's own writes, and the cache shows those, one run brings the pod to
    -- rest: it ends with no error, and no later run, however many there are, writes or asks the LLM
    -- again; unless the rate limit held it back, and it is to be repeated after the delay.
    pub first-AtRest : (w : World S) → Good w.state → AtRest (reconcile_inner env req w)
    first-AtRest w g = SettlesIn-AtRest (reconcile_inner env req w) (first-Settles w g)
