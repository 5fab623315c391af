-- ===== src/Tests/Live.antt =====
-- The liveness of the reconciler at the server in memory, where no write is refused.
use k8s_health_ai.Prelude.{◌^◌, ◌≡◌, refl, inl, inr, none, some, Option-cases, ok}
use k8s_health_ai.Go.Errors.{api_error, already_exists}
use k8s_health_ai.Api.{ClusterDiagnosis}
use k8s_health_ai.Controller.Patch.{Writer, status_writer, metadata_writer}
use k8s_health_ai.Controller.Patch.Liveness.{server_write}
use k8s_health_ai.Controller.Reconcile.{reconcile_inner}
use k8s_health_ai.Controller.Reconcile.Succeeds.{IsOk}
use k8s_health_ai.Controller.Reconcile.Cooperation.{Cooperates}
use k8s_health_ai.Controller.Reconcile.Liveness.{reconcile_inner-IsOk}
use k8s_health_ai.Tests.Data.{crashing_pod}
use k8s_health_ai.Tests.Memory.{Memory, memory, start_with, absent}
use k8s_health_ai.Tests.Runs.{request}

abbrev Good : Memory → Type 0
Good m = (m.pod ≡ ok crashing_pod) × (m.conflicts ≡ 0)

abbrev Live : Memory → Type 0
Live m = Good m × (cd : ClusterDiagnosis) × (m.stored ≡ some cd)

accepted :
    (writer : Writer) (cd : ClusterDiagnosis) (m : Memory)
    → Live m
    → IsOk Live (server_write memory writer cd m)
accepted status_writer cd m ((p, q), old, e) = rw q (tt, refl, ((p, refl), cd, refl))
accepted metadata_writer cd m ((p, q), old, e) = rw q (tt, refl, ((p, refl), cd, refl))

memory-Cooperates : Cooperates memory Good Live
unfolding k8s_health_ai.Controller.Patch.read_with k8s_health_ai.Llm.Mock.mock_provider
    k8s_health_ai.Go.Errors.is_not_found k8s_health_ai.Go.Errors.is_already_exists
memory-Cooperates = record {
  gets_pod = λ key m g. (crashing_pod, g.0, g);
  finds = λ key m g. elim (Option-cases m.stored) [
    | inl e ↦ inr (absent, rw e refl, refl, g)
    | inr (cd, e) ↦ inl (cd, rw e refl, (g, cd, e))
  ];
  owns = λ pod cd. (cd, refl);
  creates = λ cd m g. elim (Option-cases m.stored) [
    | inl e ↦ inl (tt, rw e refl, rw e (g, cd, refl))
    | inr (old, e) ↦
        inr (api_error already_exists "already exists", rw e refl, refl, rw e (g, old, refl))
  ];
  reads = λ key m l. (l.1, rw l.2 refl, l);
  accepts = accepted;
  marshals = λ pod. (_, refl);
  lists = λ key m l. (_, refl, l);
  logs = λ key container previous m l. l;
  answers = λ fc m l. (_, refl, l);
  ticks = λ m l. l;
  stays_good = λ m l. l.0;
}

reconcile_inner-IsOk_example : IsOk Good (
  (reconcile_inner memory request (start_with none 0 (10 ^ 9))).0,
  (reconcile_inner memory request (start_with none 0 (10 ^ 9))).1.state,
)
reconcile_inner-IsOk_example =
    reconcile_inner-IsOk memory Good Live memory-Cooperates request (start_with none 0 (10 ^ 9))
      (refl, refl)
