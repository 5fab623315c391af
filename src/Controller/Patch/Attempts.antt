-- ===== src/Controller/Patch/Attempts.antt =====
-- internal/controller/pod_controller.go: how a patch ends, and how often it writes.
use k8s_health_ai.Prelude.{
  ℕ, zero, suc, ◌≡◌, refl, ap, ◌∙◌, ◌⊎◌, inl, inr, true, false, Outcome, ok, err, Bool-cases, List,
  [], ◌∷◌,
}
use k8s_health_ai.Go.Errors.{Error, text_error, wrapped, is_transient}
use k8s_health_ai.Action.{continue}
use k8s_health_ai.Kube.{Key}
use k8s_health_ai.Api.{ClusterDiagnosis}
use k8s_health_ai.World.{Answer, Env, Call, World, Run, read_diagnosis, slept}
use k8s_health_ai.World.Trace.{Extends, Extends-refl, Extends-cons, Extends-note, Extends-trans}
use k8s_health_ai.Controller.Patch.{
  Mutation, Writer, status_writer, metadata_writer, note, exhausted_text, backoff, get_diagnosis,
  write, pause, after_write, attempt_write, patch_loop, patch_diagnosis,
}

-- The trace ends with an object that was read, and the write of its mutation with that answer.
abbrev pub WroteLast : Writer → Mutation → Answer → List Call → Type 0
WroteLast writer mutate answer calls =
    (cur : ClusterDiagnosis) × (rest : List Call) × (calls
      ≡ note writer (mutate cur) answer ∷ read_diagnosis (ok cur) ∷ rest)

-- The trace ends with a pause behind a write that was refused for a transient reason.
abbrev pub GaveUp : Writer → Mutation → Error → List Call → Type 0
GaveUp writer mutate e [] = ⊥
GaveUp writer mutate e (c ∷ calls) =
    (is_transient e ≡ true) × ((n : ℕ) × (c ≡ slept n)) × WroteLast writer mutate (err e) calls

-- How a patch ends.
abbrev pub PatchEnd : Writer → Mutation → Answer → List Call → Type 0
PatchEnd writer mutate (ok _) calls = WroteLast writer mutate (ok tt) calls
PatchEnd writer mutate (err e) calls =
    ((rest : List Call) × (calls ≡ read_diagnosis (err e) ∷ rest))
    ⊎ ((is_transient e ≡ false) × WroteLast writer mutate (err e) calls)
    ⊎ ((e' : Error) × (e ≡ wrapped (exhausted_text writer) e') × GaveUp writer mutate e' calls)

module _ {S : Type 0} (env : Env S) where
  pub get_diagnosis-calls :
      (key : Key) (w : World S)
      → (get_diagnosis env key w).1.calls ≡ read_diagnosis (get_diagnosis env key w).0 ∷ w.calls
  unfolding get_diagnosis
  get_diagnosis-calls key w = refl

  pub write-calls :
      (writer : Writer) (cd : ClusterDiagnosis) (w : World S)
      → (write env writer cd w).1.calls ≡ note writer cd (write env writer cd w).0 ∷ w.calls
  unfolding write
  write-calls status_writer cd w = refl
  write-calls metadata_writer cd w = refl

  module _ (writer : Writer) (key : Key) (mutate : Mutation) (base : List Call) where
    -- A run that ends as a patch does, and only adds to the trace `base`.
    abbrev EndsWell : Answer × World S → Type 0
    EndsWell (r, w) = PatchEnd writer mutate r w.calls × Extends base w.calls

    abbrev Resumes : (Error → Run S (Unit {0})) → Type 0
    Resumes again =
        (e : Error) (w : World S)
        → GaveUp writer mutate e w.calls
        → Extends base w.calls
        → EndsWell (again e w)

    after_write-EndsWell :
        (made : ℕ) (answer : Answer) (again : Error → Run S (Unit {0})) (w : World S)
        → WroteLast writer mutate answer w.calls
        → Extends base w.calls
        → Resumes again
        → EndsWell (after_write env made answer again w)
    unfolding after_write pause
    after_write-EndsWell made (ok u) again w h x ih = (h, x)
    after_write-EndsWell made (err e) again w h x ih = elim (Bool-cases (is_transient e)) [
      | inl t ↦ rw t (ih e _ (t, (backoff made, refl), h) (Extends-cons (slept (backoff made)) x))
      | inr f ↦ rw f (inr (inl (f, h)), x)
    ]

    after_read-EndsWell :
        (made : ℕ) (r : Outcome Error ClusterDiagnosis) (again : Error → Run S (Unit {0}))
        (w : World S) (rest : List Call)
        → w.calls ≡ read_diagnosis r ∷ rest
        → Extends base w.calls
        → Resumes again
        → EndsWell (continue r (attempt_write env writer mutate made again) w)
    unfolding attempt_write
    after_read-EndsWell made (err e) again w rest h x ih = (inl (rest, h), x)
    after_read-EndsWell made (ok cur) again w rest h x ih =
        let wrote = write env writer (mutate cur) w in
        after_write-EndsWell made wrote.0 again wrote.1
          (
            cur,
            rest,
            write-calls writer (mutate cur) w ∙ ap (λ l. note writer (mutate cur) wrote.0 ∷ l) h,
          )
          (Extends-trans x (Extends-note _ (write-calls writer (mutate cur) w))) ih

    -- what the loop relies on when no round is left
    abbrev Pending : ℕ → Error → List Call → Type 0
    Pending zero last calls = GaveUp writer mutate last calls
    Pending (suc rounds) last calls = Unit

    Pending-GaveUp :
        (rounds : ℕ) (e : Error) (calls : List Call)
        → GaveUp writer mutate e calls
        → Pending rounds e calls
    Pending-GaveUp zero e calls h = h
    Pending-GaveUp (suc rounds) e calls h = tt

    patch_loop-EndsWell :
        (rounds made : ℕ) (last : Error) (w : World S)
        → Pending rounds last w.calls
        → Extends base w.calls
        → EndsWell (patch_loop env writer key mutate rounds made last w)
    unfolding patch_loop
    patch_loop-EndsWell zero made last w h x = (inr (inr (last, refl, h)), x)
    patch_loop-EndsWell (suc rounds) made last w h x =
        let got = get_diagnosis env key w in
        after_read-EndsWell made got.0 (patch_loop env writer key mutate rounds (suc made)) got.1
          w.calls (get_diagnosis-calls key w)
          (Extends-trans x (Extends-note _ (get_diagnosis-calls key w)))
          λ e w' gave x'.
            patch_loop-EndsWell rounds (suc made) e w' (Pending-GaveUp rounds e w'.calls gave) x'

  -- A patch that returns no error ends with the accepted write of the mutation of the object that
  -- was read just before. One that returns an error ends with the read that failed, with a write
  -- that was refused for good, or, with that error wrapped, with the pause behind a write that was
  -- refused for a transient reason. Either way it only adds to the trace.
  pub patch_diagnosis-PatchEnd :
      (writer : Writer) (key : Key) (mutate : Mutation) (w : World S)
      → PatchEnd writer mutate
          (patch_diagnosis env writer key mutate w).0
          (patch_diagnosis env writer key mutate w).1.calls
        × Extends w.calls (patch_diagnosis env writer key mutate w).1.calls
  unfolding patch_diagnosis
  patch_diagnosis-PatchEnd writer key mutate w =
      patch_loop-EndsWell writer key mutate w.calls 8 0 (text_error "") w tt (Extends-refl w.calls)
