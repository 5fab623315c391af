-- ===== src/Diagctl/Exits.antt =====
-- cmd/diagctl/main.go: the exit codes.
use text.Mathlib.TextLemmas.{append_assoc, append-nil}
use k8s_health_ai.Prelude.{
  ℕ, ◌≤◌, String, true, ◌||◌, ◌≡◌, refl, sym, ap, ◌∙◌, ◌⊎◌, inl, inr, Bool-cases, Outcome, ok,
  Outcome-cases, List, [], ◌∷◌, ◌==◌, ◌<>◌, eq-cases, arith,
}
use k8s_health_ai.Go.Errors.{Error, message}
use k8s_health_ai.Go.Strings.{rune_count}
use k8s_health_ai.Go.Strings.Positions.{rune_count-append}
use k8s_health_ai.Diagctl.Console.{Cluster, Console, Run}
use k8s_health_ai.Diagctl.Usage.{global_usage}
use k8s_health_ai.Diagctl.Arguments.{is_help}
use k8s_health_ai.Diagctl.Commands.{
  run_list, run_get, run_delete, run_explain, exit_code, run_command, dispatch, main,
}
use k8s_health_ai.Diagctl.Steps.{IsStep, Follows}
use k8s_health_ai.Diagctl.Steps.Whole.{
  run_list-Follows, run_get-Follows, run_delete-Follows, run_explain-Follows,
}

module _ {S : Type 0} where
  -- something is added to what stands on the standard error, or nothing
  abbrev pub Grows : Console S → Console S → Type 0
  Grows before after = (t : String) × (after.stderr ≡ before.stderr <> t)

  Grows-refl : (c : Console S) (s : String) → s ≡ c.stderr → (t : String) × (s ≡ c.stderr <> t)
  Grows-refl c s e = ("", e ∙ sym (append-nil c.stderr))

  instance Grows-IsStep : IsStep Grows
  Grows-IsStep = record {
    same = λ c. Grows-refl c _ refl;
    joins = λ a b c (t, e) (u, f). (t <> u, f ∙ ap (λ s. s <> u) e ∙ append_assoc a.stderr t u);
    moves = λ c s. Grows-refl c _ refl;
    prints = λ c t. Grows-refl c _ refl;
    complains = λ c t. (t, refl);
    lists = λ c s scope. Grows-refl c _ refl;
    gets = λ c s key. Grows-refl c _ refl;
  }

  -- a text that is not empty is added
  abbrev pub Complains : Console S → Console S → Type 0
  Complains before after = (t : String) × (after.stderr ≡ before.stderr <> t) × (1 ≤ rune_count t)

  -- The exit code is 0 for this reason, or it is 1, with a text on the standard error.
  abbrev pub Exits : Outcome Error ℕ → Console S → Console S → Type 0 → Type 0
  Exits code before after reason =
      ((code ≡ ok 0) × reason) ⊎ ((code ≡ ok 1) × Complains before after)

longer : (s t : String) → 1 ≤ rune_count s → 1 ≤ rune_count (s <> t)
longer s t h = omega (arith, rune_count-append s t)

longer_behind : (s t : String) → 1 ≤ rune_count t → 1 ≤ rune_count (s <> t)
longer_behind s t h = omega (arith, rune_count-append s t)

begins : 1 ≤ rune_count "diagctl: "
unfolding rune_count
begins = omega arith

begins_unknown : 1 ≤ rune_count "diagctl: unknown command "
unfolding rune_count
begins_unknown = omega arith

usage_is_some : 1 ≤ rune_count global_usage
unfolding rune_count global_usage
usage_is_some = omega arith

module _ {S : Type 0} (cluster : Cluster S) where
  run_command-Exits :
      (command : Run S (Unit {0})) (c : Console S)
      → Follows Grows command
      → Exits
          (run_command cluster command c).0
          c
          (run_command cluster command c).1
          ((command c).0 ≡ ok tt)
  unfolding run_command exit_code
  run_command-Exits command c follows = elim (Outcome-cases (command c).0) [
    | inl (u, e) ↦ inl (rw e refl, e)
    | inr (x, e) ↦
        let (t, f) = follows.kept c in
        let text = "diagctl: " <> message x <> "\n" in
        inr (
          rw e refl,
          rw e (
            t <> text,
            ap (λ s. s <> text) f ∙ append_assoc c.stderr t text,
            longer_behind t text (longer "diagctl: " (message x <> "\n") begins),
          ),
        )
  ]

  -- one of the four commands
  abbrev pub IsNamed : String → List String → Run S (Unit {0}) → Type 0
  IsNamed cmd rest command =
      ((cmd ≡ "list") × (command ≡ run_list cluster rest))
      ⊎ ((cmd ≡ "get") × (command ≡ run_get cluster rest))
      ⊎ ((cmd ≡ "delete") × (command ≡ run_delete cluster rest))
      ⊎ ((cmd ≡ "explain") × (command ≡ run_explain cluster rest))

  abbrev pub Succeeded : String → List String → Console S → Type 0
  Succeeded cmd rest c =
      (command : Run S (Unit {0})) × IsNamed cmd rest command × ((command c).0 ≡ ok tt)

  named-Exits :
      (cmd : String) (rest : List String) (command : Run S (Unit {0})) (c : Console S)
      → IsNamed cmd rest command
      → Follows Grows command
      → Exits
          (run_command cluster command c).0
          c
          (run_command cluster command c).1
          (Succeeded cmd rest c)
  named-Exits cmd rest command c named follows = elim (run_command-Exits command c follows) [
    | inl (e, done) ↦ inl (e, (command, named, done))
    | inr bad ↦ inr bad
  ]

  dispatch-Exits :
      (cmd : String) (rest : List String) (c : Console S)
      → Exits
          (dispatch cluster cmd rest c).0
          c
          (dispatch cluster cmd rest c).1
          (Succeeded cmd rest c)
  unfolding dispatch
  dispatch-Exits cmd rest c = elim (eq-cases cmd "list") [
    | inl (t, e) ↦ rw t (
        named-Exits cmd rest (run_list cluster rest) c (inl (e, refl))
          (run_list-Follows cluster rest))
    | inr (f1, _) ↦ rw f1 (elim (eq-cases cmd "get") [
      | inl (t, e) ↦ rw t (
          named-Exits cmd rest (run_get cluster rest) c (inr (inl (e, refl)))
            (run_get-Follows cluster rest))
      | inr (f2, _) ↦ rw f2 (elim (eq-cases cmd "delete") [
        | inl (t, e) ↦ rw t (
            named-Exits cmd rest (run_delete cluster rest) c (inr (inr (inl (e, refl))))
              (run_delete-Follows cluster (λ c s cd. Grows-refl c _ refl) rest))
        | inr (f3, _) ↦ rw f3 (elim (eq-cases cmd "explain") [
          | inl (t, e) ↦ rw t (
              named-Exits cmd rest (run_explain cluster rest) c (inr (inr (inr (e, refl))))
                (run_explain-Follows cluster rest))
          | inr (f4, _) ↦
              rw f4 (inr (refl, (_, refl, longer "diagctl: unknown command " _ begins_unknown)))
        ])
      ])
    ])
  ]

  -- why main exits with the code 0
  abbrev pub Reason : List String → Console S → Type 0
  Reason [] c = ⊥
  Reason (cmd ∷ rest) c = ((is_help cmd || cmd == "help") ≡ true) ⊎ Succeeded cmd rest c

  -- diagctl exits with the code 0 or 1: with 0 only where its first argument calls for help, or
  -- names one of the four commands, which ended with no error; and with 1 never silently, but with a
  -- text on the standard error.
  pub main-Exits :
      (args : List String) (c : Console S)
      → Exits (main cluster args c).0 c (main cluster args c).1 (Reason args c)
  unfolding main
  main-Exits [] c = inr (refl, (_, refl, usage_is_some))
  main-Exits (cmd ∷ rest) c = elim (Bool-cases (is_help cmd || cmd == "help")) [
    | inl e ↦ rw e (inl (refl, inl refl))
    | inr e ↦
        rw e (elim (dispatch-Exits cmd rest c) [
          | inl (f, done) ↦ inl (f, inr done)
          | inr bad ↦ inr bad
        ])
  ]
