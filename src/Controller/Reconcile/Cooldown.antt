-- ===== src/Controller/Reconcile/Cooldown.antt =====
-- internal/controller/pod_controller.go: for five minutes after an LLM call whose time was stored, no
-- run asks the LLM about that pod and failure type, whatever happens to the pod.
use k8s_health_ai.Prelude.{
  ℕ, ◌+◌, ◌-◌, ◌%◌, ◌^◌, ◌≤◌, ◌≡◌, ◌≢◌, refl, ◌⊎◌, inl, inr, String, Bool-cases, true, some, ok,
  List, [], ◌∷◌, ◌==◌, eq_iff, arith, first_some,
}
use k8s_health_ai.Prelude.Int.{ℤ}
use k8s_health_ai.Kube.{Pod, Key}
use k8s_health_ai.Api.{ClusterDiagnosis, phase_ready, lookup, insert}
use k8s_health_ai.Detect.{FailureType, classify, fingerprint}
use k8s_health_ai.World.{Env, World, writes, llm_calls}
use k8s_health_ai.Controller.Changes.{set_last_llm_call, is_current, map_or_empty}
use k8s_health_ai.Controller.Rate.{
  min_between_llm, last_llm_call_annotation, annotation, last_llm_call,
}
use k8s_health_ai.Controller.Reconcile.{finished, requeue_in, reconcile_inner}
use k8s_health_ai.Controller.Reconcile.Skips.{key_of, reconcile_current, reconcile_limited}

lookup-insert :
    (key value : String) (m : List (String × String)) → lookup key (insert key value m) ≡ some value
unfolding lookup insert first_some
lookup-insert key value [] = ground (arith, (eq_iff key key).1 refl)
lookup-insert key value (entry ∷ rest) = elim (Bool-cases (entry.0 == key)) [
  | inl e ↦ ground (arith, e, (eq_iff key key).1 refl)
  | inr e ↦ ground (arith, e, lookup-insert key value rest)
]

annotation-found :
    (key value : String) (m : List (String × String))
    → lookup key m ≡ some value
    → annotation key (some m) ≡ value
unfolding annotation
annotation-found key value m h = rw (annotation, h) refl

-- the annotation is read as it was written
last_llm_call-set :
    (ts : String) (cd : ClusterDiagnosis) → last_llm_call (set_last_llm_call ts cd) ≡ ts
unfolding last_llm_call set_last_llm_call
last_llm_call-set ts cd =
    let before = map_or_empty cd.metadata.annotations in
    annotation-found last_llm_call_annotation ts (insert last_llm_call_annotation ts before)
      (lookup-insert last_llm_call_annotation ts before)

-- a printed time has whole seconds
abbrev pub whole_seconds : ℕ → ℕ
whole_seconds t = t - t % 10 ^ 9

module _ {S : Type 0} (env : Env S) (req : Key) (w : World S) (pod : Pod) (ft : FailureType)
    (container : String) (cur : ClusterDiagnosis) (stamp now : ℕ) (s s' s'' : S) where
  -- the diagnosis with the time of the call
  abbrev stamped : ClusterDiagnosis
  stamped = set_last_llm_call (env.format_time stamp) cur

  -- Where the cached diagnosis of a flagged pod holds the time of an LLM call, a run that reads the
  -- clock less than five minutes later, up to the second that the printed time is cut by, ends
  -- with no error, writes nothing and asks no LLM, however the pod has changed since: it is done if
  -- the diagnosis is current, and otherwise it requeues the pod.
  pub reconcile_cooldown :
      env.get_pod req w.state ≡ (ok pod, s)
      → classify (some pod) ≡ (ft, container, true)
      → env.get_cached (key_of env pod ft) s
        ≡ (ok (set_last_llm_call (env.format_time stamp) cur), s')
      → env.now s' ≡ (now, s'')
      → env.format_time stamp ≢ ""
      → env.parse_time (env.format_time stamp) ≡ some (whole_seconds stamp)
      → now + 10 ^ 9 ≤ stamp + min_between_llm
      → let (r, w') = reconcile_inner env req w in
        ((r ≡ ok finished) ⊎ ((d : ℤ) × (r ≡ ok (requeue_in d))))
        × (writes w'.calls ≡ writes w.calls)
        × (llm_calls w'.calls ≡ llm_calls w.calls)
  unfolding writes llm_calls is_current
  reconcile_cooldown got flagged cached clocked printed parsed recent =
      elim (Bool-cases (is_current stamped (fingerprint pod container))) [
        | inl e ↦
            rw
              (reconcile_current env req w pod ft container stamped s s' got flagged cached
                (ground (arith, e, eq_iff stamped.status.phase phase_ready))
                (ground (
                  arith,
                  e,
                  eq_iff stamped.status.observed_fingerprint (fingerprint pod container),
                )))
              (inl refl, refl, refl)
        | inr e ↦
            let same = last_llm_call-set (env.format_time stamp) cur in
            let (d, limit, same_run) =
              reconcile_limited env req w pod ft container stamped s s' got flagged cached
                (whole_seconds stamp) now s'' e (rw same printed) (rw same parsed) clocked
                (omega arith) in
            rw same_run (inr (d, refl), refl, refl)
      ]
