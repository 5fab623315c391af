-- ===== src/Controller/Reconcile/Decides.antt =====
-- internal/controller/pod_controller.go: what reconcileInner decides about a flagged pod whose
-- diagnosis the cache has, before any work on it.
use k8s_health_ai.Prelude.{
  ℕ, ◌+◌, ◌*◌, ◌^◌, ◌≤◌, ◌<◌, ◌≡◌, ◌≢◌, ◌⊎◌, refl, String, true, false, none, some, Outcome, ok,
  ◌∷◌, eq_iff, arith, Bool-cases, Option-cases, inl, inr, ltb, leb, ◌==◌, sym, ◌∙◌,
}
use k8s_health_ai.Prelude.Int.{ℤ, pos, int64_half, is_positive}
use k8s_health_ai.Go.Errors.{Error}
use k8s_health_ai.Kube.{Pod, Key}
use k8s_health_ai.Api.{ClusterDiagnosis, phase_ready}
use k8s_health_ai.Detect.{FailureType, classify, fingerprint}
use k8s_health_ai.World.{Env, World, read_pod, read_diagnosis}
use k8s_health_ai.Controller.Rate.{min_between_llm, last_llm_call, requeue_delay}
use k8s_health_ai.Controller.Rate.Window.{
  requeue_delay-none_iff, requeue_delay_exact, requeue_delay_wraps,
}
use k8s_health_ai.Controller.Changes.{is_current}
use k8s_health_ai.Controller.Reconcile.{
  Result, finished, requeue_in, after_lookup, ensure_diagnosis, clock, rate_limit, check_rate,
  refresh, diagnose_pod, handle_pod, reconcile_inner, analyze,
}
use k8s_health_ai.Controller.Reconcile.Skips.{key_of, reconcile_current, reconcile_limited}

-- The diagnosis is Ready, and made for the fingerprint.
pub record Fits (cd : ClusterDiagnosis) (fp : String) : Type 0 where
  pub ready : cd.status.phase ≡ "Ready"
  pub same : cd.status.observed_fingerprint ≡ fp

-- The delay ends at the given instant; where that is some 292 years away or more, there is none.
pub data EndsAt (now end : ℕ) (z : ℤ) : Type 0 where
  later : (d : ℕ) → 0 < d → now + d ≡ end → z ≡ pos d → EndsAt now end z
  too_far : now + int64_half ≤ end → is_positive z ≡ false → EndsAt now end z

module _ {S : Type 0} (env : Env S) where
  -- The annotation holds a time, and five minutes from it are not over.
  pub record CalledRecently (cd : ClusterDiagnosis) (now ts : ℕ) : Type 0 where
    pub noted : last_llm_call cd ≢ ""
    pub parsed : env.parse_time (last_llm_call cd) ≡ some ts
    pub recent : now < ts + 5 * 60 * 10 ^ 9

  -- What a run does about the diagnosis `cd`, whose reading left the state `s'`; a clock that is
  -- read then shows `now` and leaves `s''`.
  pub data Decision (req : Key) (w : World S) (pod : Pod) (ft : FailureType) (container : String)
      (cd : ClusterDiagnosis) (s' : S) (now : ℕ) (s'' : S) (run : Outcome Error Result × World S)
      : Type 0 where
    done :
        Fits cd (fingerprint pod container)
        → run ≡ (
          ok finished,
          record { state = s'; calls = read_diagnosis (ok cd) ∷ read_pod ∷ w.calls },
        )
        → Decision req w pod ft container cd s' now s'' run
    waits :
        ¬ Fits cd (fingerprint pod container)
        → (ts : ℕ) → CalledRecently cd now ts
        → (z : ℤ) → EndsAt now (ts + 5 * 60 * 10 ^ 9) z
        → run ≡ (
          ok (requeue_in z),
          record { state = s''; calls = read_diagnosis (ok cd) ∷ read_pod ∷ w.calls },
        )
        → Decision req w pod ft container cd s' now s'' run
    works :
        ¬ Fits cd (fingerprint pod container)
        → ((ts : ℕ) → ¬ CalledRecently cd now ts)
        → (s3 : S) → ((s3 ≡ s') ⊎ (s3 ≡ s''))
        → run
          ≡ analyze env req pod ft container
              (key_of env pod ft)
              (fingerprint pod container)
              (record { state = s3; calls = read_diagnosis (ok cd) ∷ read_pod ∷ w.calls })
        → Decision req w pod ft container cd s' now s'' run

is_current-Fits : (cd : ClusterDiagnosis) (fp : String) → is_current cd fp ≡ true → Fits cd fp
unfolding is_current
is_current-Fits cd fp e = record {
  ready = ground (arith, e, eq_iff cd.status.phase phase_ready);
  same = ground (arith, e, eq_iff cd.status.observed_fingerprint fp);
}

stale-Fits : (cd : ClusterDiagnosis) (fp : String) → is_current cd fp ≡ false → ¬ Fits cd fp
unfolding is_current
stale-Fits cd fp e f = ground (
  arith,
  e,
  (eq_iff cd.status.phase phase_ready).1 f.ready,
  (eq_iff cd.status.observed_fingerprint fp).1 f.same,
)

requeue_delay-EndsAt :
    (now ts : ℕ) (z : ℤ)
    → now < ts + min_between_llm
    → requeue_delay now (some ts) ≡ some z
    → EndsAt now (ts + min_between_llm) z
requeue_delay-EndsAt now ts z h e =
    elim (Bool-cases (ltb (ts + min_between_llm) (now + int64_half))) [
      | inl near ↦
          let (d, e', p, sum, pass) = requeue_delay_exact now ts h (ground (arith, near)) in
          later d p sum (ground (arith, e, e'))
      | inr far ↦
          let (y, e', np) = requeue_delay_wraps now ts (ground (arith, far)) in
          too_far (ground (arith, far)) (ground (arith, e, e', np))
    ]

held_back : (now ts : ℕ) (z : ℤ) → requeue_delay now (some ts) ≡ some z → now < ts + min_between_llm
held_back now ts z e = elim (Bool-cases (leb (ts + min_between_llm) now)) [
  | inl f ↦ absurd (cc ((requeue_delay-none_iff now ts).1 (ground (arith, f)), e))
  | inr f ↦ ground (arith, f)
]

module _ {S : Type 0} (env : Env S) (req : Key) (w : World S) where
  module _ (pod : Pod) (ft : FailureType) (container : String) (cd : ClusterDiagnosis) (s s' : S)
      (got : env.get_pod req w.state ≡ (ok pod, s))
      (flagged : classify (some pod) ≡ (ft, container, true))
      (cached : env.get_cached (key_of env pod ft) s ≡ (ok cd, s')) where
    -- the calls of both reads
    abbrev looked_up : S → World S
    looked_up s3 = record { state = s3; calls = read_diagnosis (ok cd) ∷ read_pod ∷ w.calls }

    -- where the rate limit lets the run pass, the analysis is the rest of it
    reconcile_passes :
        (s3 : S)
        → is_current cd (fingerprint pod container) ≡ false
        → rate_limit env cd (looked_up s') ≡ (ok none, looked_up s3)
        → reconcile_inner env req w
          ≡ analyze env req pod ft container
              (key_of env pod ft)
              (fingerprint pod container)
              (looked_up s3)
    unfolding reconcile_inner handle_pod diagnose_pod ensure_diagnosis after_lookup refresh
    reconcile_passes s3 stale pass = ground arith

    rate_limit-unnoted :
        last_llm_call cd ≡ "" → rate_limit env cd (looked_up s') ≡ (ok none, looked_up s')
    unfolding rate_limit
    rate_limit-unnoted e = ground (arith, (eq_iff (last_llm_call cd) "").1 e)

    rate_limit-unparsed :
        env.parse_time (last_llm_call cd) ≡ none
        → rate_limit env cd (looked_up s') ≡ (ok none, looked_up s')
    unfolding rate_limit check_rate
    rate_limit-unparsed e = ground arith

    rate_limit-over :
        (ts now : ℕ) (s'' : S)
        → last_llm_call cd ≢ ""
        → env.parse_time (last_llm_call cd) ≡ some ts
        → env.now s' ≡ (now, s'')
        → requeue_delay now (some ts) ≡ none
        → rate_limit env cd (looked_up s') ≡ (ok none, looked_up s'')
    unfolding rate_limit check_rate clock
    rate_limit-over ts now s'' noted parsed clocked over =
        ground (arith, eq_iff (last_llm_call cd) "")

    decides_noted :
        (now : ℕ) (s'' : S)
        → env.now s' ≡ (now, s'')
        → is_current cd (fingerprint pod container) ≡ false
        → ¬ Fits cd (fingerprint pod container)
        → last_llm_call cd ≢ ""
        → (ts : ℕ) → env.parse_time (last_llm_call cd) ≡ some ts
        → Decision env req w pod ft container cd s' now s'' (reconcile_inner env req w)
    decides_noted now s'' clocked e stale noted ts parsed =
        elim (Option-cases (requeue_delay now (some ts))) [
          | inl over ↦
              let passed = (requeue_delay-none_iff now ts).0 over in
              works stale
                (λ u c.
                  let same : some u ≡ some ts = sym c.parsed ∙ parsed in
                  let recent = c.recent in ground (arith, same, recent, passed))
                s'' (inr refl)
                (reconcile_passes s'' e (rate_limit-over ts now s'' noted parsed clocked over))
          | inr (z, delay) ↦
              let recent : now < ts + min_between_llm = held_back now ts z delay in
              let (y, delay', run) =
                reconcile_limited env req w pod ft container cd s s' got flagged cached ts now s'' e
                  noted parsed clocked recent in
              waits stale ts (record { noted = noted; parsed = parsed; recent = recent }) y
                (requeue_delay-EndsAt now ts y recent delay') run
        ]

    -- A run on a pod that Classify flags and whose diagnosis the cache has: where the diagnosis is
    -- Ready and made for the fingerprint of the pod's container, and only then, the run is done after
    -- the two reads. Otherwise, where five minutes from the time in the annotation are not over, and
    -- only then, it ends after the two reads with a requeue, whose delay ends with those five
    -- minutes, or is none for a time some 292 years in the future. Otherwise it goes on as
    -- `analyze`, after the two reads.
    pub reconcile_inner-Decision :
        (now : ℕ) (s'' : S)
        → env.now s' ≡ (now, s'')
        → Decision env req w pod ft container cd s' now s'' (reconcile_inner env req w)
    reconcile_inner-Decision now s'' clocked =
        elim (Bool-cases (is_current cd (fingerprint pod container))) [
          | inl e ↦
              let f = is_current-Fits cd (fingerprint pod container) e in
              done f (
                reconcile_current env req w pod ft container cd s s' got flagged cached f.ready
                  f.same)
          | inr e ↦
              let stale = stale-Fits cd (fingerprint pod container) e in
              elim (Bool-cases (last_llm_call cd == "")) [
                | inl f ↦
                    let unnoted = (eq_iff (last_llm_call cd) "").0 f in
                    works stale (λ ts c. c.noted unnoted) s' (inl refl)
                      (reconcile_passes s' e (rate_limit-unnoted unnoted))
                | inr f ↦
                    let noted : last_llm_call cd ≢ "" =
                      λ same. cc ((eq_iff (last_llm_call cd) "").1 same, f) in
                    elim (Option-cases (env.parse_time (last_llm_call cd))) [
                      | inl g ↦
                          works stale (λ ts c. cc (c.parsed, g)) s' (inl refl)
                            (reconcile_passes s' e (rate_limit-unparsed g))
                      | inr (ts, g) ↦ decides_noted now s'' clocked e stale noted ts g
                    ]
              ]
        ]
