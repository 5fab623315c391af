-- ===== src/Manager/Launched.antt =====
-- cmd/manager/main.go: the order of the start, and its exit codes.
use k8s_health_ai.Prelude.{
  ℕ, String, ◌≡◌, refl, ap, ◌∙◌, ◌⊎◌, inl, inr, ok, err, List, [], ◌∷◌, ◌++◌, Outcome-cases,
}
use k8s_health_ai.Go.Errors.{Error}
use k8s_health_ai.Action.{Action}
use k8s_health_ai.Llm.{Provider}
use k8s_health_ai.Llm.Factory.{new_from_env}
use k8s_health_ai.Manager.{
  Options, Machine, ping, checker, Stage, config, provider, clientset, manager, controller, healthz,
  readyz, started, Boot, Launch, stage, pod_controller, run_manager, launch_with, launch,
}

-- stages in their order, each with the message for its error
abbrev pub Plan : Type 0 → Type 0
Plan S = List (Stage S × String)

module _ {S : Type 0} where
  -- the stages of a plan, made behind `made`, the latest first
  abbrev pub made_on : Plan S → List (Stage S) → List (Stage S)
  made_on [] made = made
  made_on ((s, msg) ∷ plan) made = made_on plan (s ∷ made)

  -- The process did all of the plan and ended with the code 0, or it ended with the code 1 at the
  -- first stage that failed, whose error is the one that was logged.
  pub data Ran (plan : Plan S) (before : Boot S) (code : ℕ) (after : Boot S) : Type 0 where
    whole :
        code ≡ 0
        → after.stages ≡ made_on plan before.stages
        → after.errors ≡ before.errors
        → Ran plan before code after
    stopped :
        (done rest : Plan S) (s : Stage S) (msg : String) (e : Error)
        → plan ≡ done ++ (s, msg) ∷ rest
        → code ≡ 1
        → after.stages ≡ s ∷ made_on done before.stages
        → after.errors ≡ (msg, e) ∷ before.errors
        → Ran plan before code after

  -- a stage that went well, in front of a run
  Ran-cons :
      (s : Stage S) (msg : String) (plan : Plan S) (before between after : Boot S) (code : ℕ)
      → between.stages ≡ s ∷ before.stages
      → between.errors ≡ before.errors
      → Ran plan between code after
      → Ran ((s, msg) ∷ plan) before code after
  Ran-cons s msg plan before between after code h k (whole a b c) =
      whole a (b ∙ ap (made_on plan) h) (c ∙ k)
  Ran-cons s msg plan before between after code h k (stopped done rest t m e p a b c) =
      stopped ((s, msg) ∷ done) rest t m e (ap (λ l. (s, msg) ∷ l) p) a
        (b ∙ ap (λ l. t ∷ made_on done l) h) (c ∙ ap (λ l. (m, e) ∷ l) k)

  abbrev Runs : Plan S → Launch S → Type 0
  Runs plan m = (b : Boot S) → Ran plan b (m b).0 (m b).1

  Ran-stage :
      {A : Type 0} (s : Stage S) (msg : String) (m : Action S A) (next : A → Launch S)
      (plan : Plan S)
      → ((a : A) → Runs plan (next a))
      → Runs ((s, msg) ∷ plan) (stage s msg m next)
  Ran-stage s msg m next plan h b = elim (Outcome-cases (m b.state).0) [
    | inl (a, e) ↦ rw e (Ran-cons s msg plan b _ _ _ refl refl (h a _))
    | inr (x, e) ↦ rw e (stopped [] plan s msg x refl refl refl refl)
  ]

  -- only the calls and the errors count
  Ran-quiet :
      (plan : Plan S) (before before' after : Boot S) (code : ℕ)
      → before'.stages ≡ before.stages
      → before'.errors ≡ before.errors
      → Ran plan before' code after
      → Ran plan before code after
  Ran-quiet plan before before' after code h k (whole a b c) =
      whole a (b ∙ ap (made_on plan) h) (c ∙ k)
  Ran-quiet plan before before' after code h k (stopped done rest t m e p a b c) =
      stopped done rest t m e p a (b ∙ ap (λ l. t ∷ made_on done l) h) (c ∙ ap (λ l. (m, e) ∷ l) k)

module _ {S : Type 0} (machine : Machine S) where
  -- from the clientset on
  abbrev pub launch_plan : Options → Provider S → Plan S
  launch_plan options llm =
      (clientset, "kubernetes clientset")
      ∷ (manager options, "manager")
      ∷ (controller (pod_controller machine llm), "controller")
      ∷ (healthz "healthz" ping, "healthz")
      ∷ (readyz "apiserver" (checker machine.server_version), "readyz")
      ∷ (started, "manager exited")
      ∷ []

  run_manager-Runs : Runs ((started, "manager exited") ∷ []) (run_manager machine)
  run_manager-Runs b =
      Ran-quiet _ b (record b { infos = "starting manager" ∷ b.infos }) _ _ refl refl
        (Ran-stage started "manager exited" machine.start (λ _ b'. (0, b')) []
          (λ _ b'. whole refl refl refl) (record b { infos = "starting manager" ∷ b.infos }))

  launch_with-Runs :
      (options : Options) (llm : Provider S)
      → Runs (launch_plan options llm) (launch_with machine options llm)
  unfolding launch_with
  launch_with-Runs options llm = Ran-stage _ _ machine.new_clientset _ _ λ _.
      Ran-stage _ _ (machine.new_manager options) _ _ λ _.
        Ran-stage _ _ (machine.complete (pod_controller machine llm)) _ _ λ _.
          Ran-stage _ _ (machine.add_healthz_check "healthz" ping) _ _ λ _.
            Ran-stage _ _ (machine.add_readyz_check "apiserver" (checker machine.server_version)) _
              _ λ _. run_manager-Runs

  -- The start with a provider makes all the calls in their order, or stops at the first that fails;
  -- without a provider it stops with the code 1, at the choice of the provider or before.
  abbrev pub Launched : Options → Boot S → ℕ → Boot S → Type 0
  Launched options before code after =
      ((llm : Provider S) × (new_from_env machine.services machine.quote ≡ ok llm)
        × Ran ((config, "load kubeconfig") ∷ (provider, "llm provider") ∷ launch_plan options llm)
            before code after)
      ⊎ ((e : Error) × (new_from_env machine.services machine.quote ≡ err e)
          × (code ≡ 1)
          × Ran ((config, "load kubeconfig") ∷ (provider, "llm provider") ∷ []) before code after)

  -- the choice of the provider, as `launch` makes it
  abbrev choose : Action S (Provider S)
  choose s = (new_from_env machine.services machine.quote, s)

  chosen-Runs :
      (options : Options) (llm : Provider S)
      → new_from_env machine.services machine.quote ≡ ok llm
      → Runs
          ((provider, "llm provider") ∷ launch_plan options llm)
          (stage provider "llm provider" choose (launch_with machine options))
  chosen-Runs options llm e b = rw e (
      Ran-cons provider _ (launch_plan options llm) b _ _ _ refl refl
        (launch_with-Runs options llm _))

  refused-Runs :
      (options : Options) (x : Error)
      → new_from_env machine.services machine.quote ≡ err x
      → Runs
          ((provider, "llm provider") ∷ [])
          (stage provider "llm provider" choose (launch_with machine options))
  refused-Runs options x e b = rw e (stopped [] [] provider _ x refl refl refl refl)

  refused-code :
      (options : Options) (x : Error) (b : Boot S)
      → new_from_env machine.services machine.quote ≡ err x
      → (launch machine options b).0 ≡ 1
  unfolding launch
  refused-code options x b e = elim (Outcome-cases (machine.get_config b.state).0) [
    | inl (u, f) ↦ rw (f, e) refl
    | inr (y, f) ↦ rw f refl
  ]

  -- Behind its flags, main asks for the configuration, the provider of NewFromEnv, the clientset, the
  -- manager with the options of the flags, the controller with this provider, the two checks, and
  -- then starts the manager. It ends with the code 0 only behind all of them; at the first call
  -- that fails it makes no other, logs its error, and ends with the code 1.
  pub launch-Launched :
      (options : Options) (b : Boot S)
      → Launched options b (launch machine options b).0 (launch machine options b).1
  unfolding launch
  launch-Launched options b = elim (Outcome-cases (new_from_env machine.services machine.quote)) [
    | inl (llm, e) ↦
        inl (llm, e, Ran-stage _ _ machine.get_config _ _ (λ _. chosen-Runs options llm e) b)
    | inr (x, e) ↦ inr (
      x,
      e,
      refused-code options x b e,
      Ran-stage _ _ machine.get_config _ _ (λ _. refused-Runs options x e) b,
    )
  ]
