-- ===== src/Metrics/Reported.antt =====
-- internal/metrics/metrics.go: after init, no sample of a run panics.
use mathlib.Core.List.{Memᴰ}
use mathlib.Core.Path.{subst}
use k8s_health_ai.Prelude.{
  ◌≡◌, ◌≢◌, refl, sym, ◌∙◌, ap, String, Option, none, some, ok, err, List, [], ◌∷◌, length, str_ne,
  ◌++◌,
}
use k8s_health_ai.Prelude.Int.{ℤ}
use k8s_health_ai.Go.Errors.{Error}
use k8s_health_ai.Action.{Action, pure, ◌>>◌}
use k8s_health_ai.World.{
  Call, counted, observed, read_pod, read_diagnosis, created, status_written, written,
  listed_events, fetched_logs, asked_llm, slept,
}
use k8s_health_ai.Metrics.{
  counter, histogram, Vec, diagnoses_total, reconcile_duration, llm_call_duration, Sample, inc,
  observe, observe_llm_call, record_diagnosis, observe_reconcile, Prometheus, init,
}

-- the function that an entry of a run's trace calls, with what it samples
unfoldable pub sample_of : Call → Option Sample
sample_of (counted ft phase) = some (record_diagnosis ft phase)
sample_of (observed label d) = some (observe_reconcile label d)
sample_of _ = none

-- as many label values as the vector has labels, and the call fits the kind of the vector
abbrev pub Fits : Sample → Type 0
Fits (inc v values) = (v.kind ≡ counter) × (length values ≡ length v.labels)
Fits (observe v values d) = (v.kind ≡ histogram) × (length values ≡ length v.labels)

module _ {S : Type 0} (prometheus : Prometheus S) where
  abbrev sample_each : Option Sample → Action S (Unit {0})
  sample_each none = pure tt
  sample_each (some x) = prometheus.sample x

  -- the samples of a trace, one after the other
  unfoldable pub report : List Call → Action S (Unit {0})
  report [] = pure tt
  report (c ∷ calls) = sample_each (sample_of c) >> report calls

  -- What is documented of the library, where `names s` are the names of the registered vectors:
  -- MustRegister panics for a name that is registered already, and a vector panics for a wrong
  -- number of label values.
  pub record PrometheusLaws (names : S → List String) : Type 0 where
    pub registers :
        (v : Vec) (s : S)
        → ¬ Memᴰ v.name (names s)
        → ((prometheus.must_register v s).0 ≡ ok tt)
          × (names (prometheus.must_register v s).1 ≡ v.name ∷ names s)
    pub refuses :
        (v : Vec) (s : S)
        → Memᴰ v.name (names s)
        → (e : Error) × ((prometheus.must_register v s).0 ≡ err e)
    pub samples : (x : Sample) (s : S) → Fits x → (prometheus.sample x s).0 ≡ ok tt

-- the names of the three vectors, the latest first
abbrev pub vec_names : List String
vec_names = llm_call_duration.name ∷ reconcile_duration.name ∷ diagnoses_total.name ∷ []

-- an entry that stands for no sample, or for one that fits
abbrev AllFit : Option Sample → Type 0
AllFit none = Unit
AllFit (some x) = Fits x

sample_of-Fits : (c : Call) → AllFit (sample_of c)
unfolding sample_of record_diagnosis observe_reconcile
sample_of-Fits (counted ft phase) = (refl, refl)
sample_of-Fits (observed label d) = (refl, refl)
sample_of-Fits read_pod = tt
sample_of-Fits (read_diagnosis r) = tt
sample_of-Fits (created cd answer) = tt
sample_of-Fits (status_written cd answer) = tt
sample_of-Fits (written cd answer) = tt
sample_of-Fits listed_events = tt
sample_of-Fits (fetched_logs previous) = tt
sample_of-Fits (asked_llm fc answer) = tt
sample_of-Fits (slept n) = tt

module _ {S : Type 0} (prometheus : Prometheus S) (names : S → List String)
    (laws : PrometheusLaws prometheus names) where
  sample_each-ok : (x : Option Sample) (s : S) → AllFit x → (sample_each prometheus x s).0 ≡ ok tt
  sample_each-ok none s h = refl
  sample_each-ok (some x) s h = laws.samples x s h

  report-ok : (calls : List Call) (s : S) → (report prometheus calls s).0 ≡ ok tt
  unfolding report
  report-ok [] s = refl
  report-ok (c ∷ calls) s =
      rw (sample_each-ok (sample_of c) s (sample_of-Fits c))
        (report-ok calls (sample_each prometheus (sample_of c) s).1)

  not_registered :
      (name taken : String) (registered others : List String)
      → registered ≡ taken ∷ others
      → name ≢ taken
      → ¬ Memᴰ name others
      → ¬ Memᴰ name registered
  not_registered name taken registered others e differ h m = elim (subst (Memᴰ name) e m) [
    | Memᴰ.head p ↦ differ p
    | Memᴰ.tail m' ↦ h m'
  ]

  -- diagnoses_total is registered already
  twice :
      (s : S) (others : List String)
      → names s ≡ vec_names ++ others
      → (e : Error) × ((init prometheus s).0 ≡ err e)
  unfolding init
  twice s others n =
      let (e, r) =
        laws.refuses diagnoses_total s
          (subst (Memᴰ _) (sym n) (Memᴰ.tail (Memᴰ.tail (Memᴰ.head refl)))) in
      (e, rw r refl)

  -- Where none of the three names is registered, init registers the three vectors without a panic,
  -- and nothing else; a second init would panic. RecordDiagnosis, ObserveReconcile and ObserveLLMCall
  -- give their vectors as many values as these have labels, so that none of them panics, whatever
  -- the values and durations; nor do the samples of any trace, one after the other.
  pub init-Registered :
      (s : S)
      → ¬ Memᴰ diagnoses_total.name (names s)
      → ¬ Memᴰ reconcile_duration.name (names s)
      → ¬ Memᴰ llm_call_duration.name (names s)
      → let s' = (init prometheus s).1 in
        ((init prometheus s).0 ≡ ok tt)
        × (names s' ≡ vec_names ++ names s)
        × ((e : Error) × ((init prometheus s').0 ≡ err e))
        × ((ft phase : String) (s'' : S)
            → (prometheus.sample (record_diagnosis ft phase) s'').0 ≡ ok tt)
        × ((result : String) (d : ℤ) (s'' : S)
            → (prometheus.sample (observe_reconcile result d) s'').0 ≡ ok tt)
        × ((provider result : String) (d : ℤ) (s'' : S)
            → (prometheus.sample (observe_llm_call provider result d) s'').0 ≡ ok tt)
        × ((calls : List Call) → (report prometheus calls s').0 ≡ ok tt)
  unfolding init record_diagnosis observe_reconcile observe_llm_call
  init-Registered s no_total no_reconcile no_llm =
      let (r1, n1) = laws.registers diagnoses_total s no_total in
      let (r2, n2) =
        laws.registers reconcile_duration _
          (not_registered _ _ _ _ n1 (str_ne refl) no_reconcile) in
      let (r3, n3) = laws.registers llm_call_duration _ (
        not_registered _ _ _ _ n2 (str_ne refl) (not_registered _ _ _ _ n1 (str_ne refl) no_llm)) in
      rw (r1, r2, r3)
        (
          refl,
          n3
              ∙ ap (λ ns. llm_call_duration.name ∷ ns)
                  (n2 ∙ ap (λ ns. reconcile_duration.name ∷ ns) n1),
          twice _ _ (
              n3
              ∙ ap (λ ns. llm_call_duration.name ∷ ns)
                  (n2 ∙ ap (λ ns. reconcile_duration.name ∷ ns) n1)),
          λ ft phase s''. laws.samples _ s'' (refl, refl),
          λ result d s''. laws.samples _ s'' (refl, refl),
          λ provider result d s''. laws.samples _ s'' (refl, refl),
          λ calls. report-ok calls _,
        )
