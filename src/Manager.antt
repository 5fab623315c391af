-- ===== src/Manager.antt =====
-- cmd/manager/main.go, the start of the controller manager, and `SetupWithManager` of
-- internal/controller/pod_controller.go.
pub mod Launched
use mathlib.Core.List
use k8s_health_ai.Prelude.{
  ℕ, String, Bool, true, false, Option, none, some, Outcome, ok, err, List, [], ◌∷◌, ◌++◌,
  if◌then◌else◌,
}
use k8s_health_ai.Go.Errors.{Error}
use k8s_health_ai.Go.Flag.{
  Value, text, switch, Flags, Parsed, parsed, help, failed, flag_value, parse,
}
use k8s_health_ai.Action.{Action}
use k8s_health_ai.Kube.{Pod}
use k8s_health_ai.Llm.{Provider}
use k8s_health_ai.Llm.Services.{Services}
use k8s_health_ai.Llm.Factory.{new_from_env}
use k8s_health_ai.Controller.Reconcile.{failure_predicate}

-- ctrl.Options, less the scheme
pub record Options : Type 0 where
  pub metrics_addr : String
  pub probe_addr : String
  pub leader_elect : Bool
  pub leader_election_id : String

-- the controller that SetupWithManager builds: the filter of its events reads a Pod, or what is no
-- Pod, and its reconciler asks this provider
pub record PodController (S : Type 0) : Type 0 where
  pub name : String
  pub filter : Option Pod → Bool
  pub llm : Provider S

-- healthz.Ping, which has no error, and another check
pub data Checker (S : Type 0) : Type 0 where
  ping : Checker S
  checker : Action S (Unit {0}) → Checker S

-- The libraries that main calls.
pub record Machine (S : Type 0) : Type 0 where
  pub services : Services S
  -- ctrl.GetConfig, kubernetes.NewForConfig, ctrl.NewManager
  pub get_config : Action S (Unit {0})
  pub new_clientset : Action S (Unit {0})
  pub new_manager : Options → Action S (Unit {0})
  -- Complete of the controller's builder
  pub complete : PodController S → Action S (Unit {0})
  pub add_healthz_check : String → Checker S → Action S (Unit {0})
  pub add_readyz_check : String → Checker S → Action S (Unit {0})
  pub start : Action S (Unit {0})
  -- ServerVersion of the clientset
  pub server_version : Action S (Unit {0})
  -- the flags that the libraries declared
  pub library_flags : Flags
  -- the verb %q
  pub quote : String → String

-- A call that main makes.
pub data Stage (S : Type 0) : Type 0 where
  config provider clientset : Stage S
  manager : Options → Stage S
  controller : PodController S → Stage S
  healthz readyz : String → Checker S → Stage S
  started : Stage S

-- `stages`, the calls made, and `errors`, what the log holds of them, have the latest first;
-- `printed` is what the package `flag` prints.
pub record Boot (S : Type 0) : Type 0 where
  pub state : S
  pub stages : List (Stage S)
  pub errors : List (String × Error)
  pub infos : List String
  pub printed : List String

-- the process, up to its exit code
abbrev pub Launch : Type 0 → Type 0
Launch S = Boot S → ℕ × Boot S

abbrev pub manager_flags : Flags
manager_flags =
    List.◌∷◌ ("metrics-bind-address", text ":8080")
      (List.◌∷◌ ("health-probe-bind-address", text ":8081")
        (List.◌∷◌ ("leader-elect", switch false)
          (List.◌∷◌ ("leader-election-id", text "k8s-health-ai-leader") List.[])))

abbrev text_value : Option Value → String
text_value (some (text s)) = s
text_value _ = ""

abbrev switch_value : Option Value → Bool
switch_value (some (switch b)) = b
switch_value _ = false

-- the options by the flags
unfoldable pub options_of : Flags → Options
unfolding flag_value
options_of fs = record {
  metrics_addr = text_value (flag_value "metrics-bind-address" fs);
  probe_addr = text_value (flag_value "health-probe-bind-address" fs);
  leader_elect = switch_value (flag_value "leader-elect" fs);
  leader_election_id = text_value (flag_value "leader-election-id" fs);
}

module _ {S A : Type 0} where
  -- `if err != nil { setupLog.Error(err, msg); os.Exit(1) }`
  abbrev pub or_exit : String → Outcome Error A → (A → Launch S) → Launch S
  or_exit msg (ok a) next b = next a b
  or_exit msg (err e) next b = (1, record b { errors = (msg, e) ∷ b.errors })

  -- a call, noted, with the test of its error
  abbrev pub stage : Stage S → String → Action S A → (A → Launch S) → Launch S
  stage s msg m next b =
      let (r, state) = m b.state in
      or_exit msg r next (record b { state = state; stages = s ∷ b.stages })

module _ {S : Type 0} (machine : Machine S) where
  -- apiserverChecker
  unfoldable pub apiserver_checker : Checker S
  apiserver_checker = checker machine.server_version

  -- SetupWithManager
  unfoldable pub pod_controller : Provider S → PodController S
  unfolding failure_predicate
  pod_controller llm = record { name = "pod-health"; filter = failure_predicate; llm = llm }

  -- from "starting manager" on
  abbrev pub run_manager : Launch S
  run_manager b =
      stage started "manager exited" machine.start (λ _ b'. (0, b'))
        (record b { infos = "starting manager" ∷ b.infos })

  -- behind NewFromEnv
  unfoldable pub launch_with : Options → Provider S → Launch S
  unfolding apiserver_checker pod_controller
  launch_with options llm = stage clientset "kubernetes clientset" machine.new_clientset λ _.
      stage (manager options) "manager" (machine.new_manager options) λ _.
        stage (controller (pod_controller llm)) "controller" (machine.complete (pod_controller llm))
          λ _.
            stage (healthz "healthz" ping) "healthz" (machine.add_healthz_check "healthz" ping) λ _.
              stage (readyz "apiserver" apiserver_checker) "readyz"
                (machine.add_readyz_check "apiserver" apiserver_checker) λ _. run_manager

  -- behind flag.Parse
  unfoldable pub launch : Options → Launch S
  unfolding launch_with
  launch options = stage config "load kubeconfig" machine.get_config λ _.
      stage provider "llm provider" (λ s. (new_from_env machine.services machine.quote, s))
        (launch_with options)

  -- main: flag.Parse ends the process with the code 0 on a call for help, and 2 on an error
  unfoldable pub main_with : Parsed → Launch S
  unfolding launch options_of
  main_with (parsed fs args) b = launch (options_of fs) b
  main_with help b = (0, b)
  main_with (failed msg) b = (2, record b { printed = msg ∷ b.printed })

  unfoldable pub main : List String → Launch S
  unfolding main_with
  main args = main_with (parse machine.quote (machine.library_flags ++ manager_flags) args)
