-- ===== src/Tests/Rest.antt =====
-- How the reconciler comes to rest, at a server in memory that merges every write.
use k8s_health_ai.Prelude.{◌^◌, ◌≡◌, refl, inl, inr, Option, none, some, Option-cases, ok, arith}
use k8s_health_ai.Go.Errors.{api_error, already_exists}
use k8s_health_ai.Llm.Reliable.{IsReliable-mock}
use k8s_health_ai.Api.{ClusterDiagnosis}
use k8s_health_ai.Detect.{crash_loop_back_off}
use k8s_health_ai.World.{Env}
use k8s_health_ai.Controller.Patch.{Writer, status_writer, metadata_writer}
use k8s_health_ai.Controller.Patch.Liveness.{server_write}
use k8s_health_ai.Controller.Lifecycle.Server.{SameVersion, Merged}
use k8s_health_ai.Controller.Reconcile.{reconcile_inner}
use k8s_health_ai.Controller.Reconcile.Succeeds.{IsOk}
use k8s_health_ai.Controller.Reconcile.Cooperation.{Cooperates}
use k8s_health_ai.Controller.Reconcile.Steady.{Steady}
use k8s_health_ai.Controller.Reconcile.Settles.{AtRest, first-AtRest}
use k8s_health_ai.Tests.Data.{crashing_pod}
use k8s_health_ai.Tests.Detection.{classify_crashing}
use k8s_health_ai.Tests.Memory.{Memory, memory, start_with, absent, stored_or_absent}
use k8s_health_ai.Tests.Runs.{request}

abbrev merge_status : ClusterDiagnosis → Option ClusterDiagnosis → ClusterDiagnosis
merge_status b none = b
merge_status b (some y) = record y { status = b.status }

abbrev merge_rest : ClusterDiagnosis → Option ClusterDiagnosis → ClusterDiagnosis
merge_rest b none = b
merge_rest b (some y) = record b { status = y.status }

abbrev merging : Env Memory
merging = record memory {
  update_status = λ b m. (ok tt, record m { stored = some (merge_status b m.stored) });
  update = λ b m. (ok tt, record m { stored = some (merge_rest b m.stored) });
}

abbrev Good : Memory → Type 0
Good m = m.pod ≡ ok crashing_pod

abbrev Holds : ClusterDiagnosis → Memory → Type 0
Holds cd m = Good m × (m.stored ≡ some cd)

abbrev Live : Memory → Type 0
Live m = (cd : ClusterDiagnosis) × Holds cd m

accepted :
    (writer : Writer) (b : ClusterDiagnosis) (m : Memory)
    → Live m
    → IsOk Live (server_write merging writer b m)
accepted status_writer b m (cd, (g, e)) = (tt, refl, (_, (g, refl)))
accepted metadata_writer b m (cd, (g, e)) = (tt, refl, (_, (g, refl)))

merged :
    (writer : Writer) (cd b : ClusterDiagnosis) (m : Memory)
    → Holds cd m
    → SameVersion cd b
    → ((server_write merging writer b m).0 ≡ ok tt)
      × (x : ClusterDiagnosis) × Holds x (server_write merging writer b m).1
      × Merged writer cd b x
merged status_writer cd b m (g, e) same = (
  refl,
  merge_status b m.stored,
  (g, refl),
  rw e (record { name = refl; namespace = refl; annotations = refl; spec = refl; status = refl }),
)
merged metadata_writer cd b m (g, e) same = (
  refl,
  merge_rest b m.stored,
  (g, refl),
  rw e (record { name = refl; namespace = refl; annotations = refl; spec = refl; status = refl }),
)

merging-Cooperates : Cooperates merging Good Live
unfolding k8s_health_ai.Controller.Patch.read_with k8s_health_ai.Llm.Mock.mock_provider
    k8s_health_ai.Go.Errors.is_not_found k8s_health_ai.Go.Errors.is_already_exists
merging-Cooperates = record {
  gets_pod = λ key m g. (crashing_pod, g, g);
  finds = λ key m g. elim (Option-cases m.stored) [
    | inl e ↦ inr (absent, rw e refl, refl, g)
    | inr (cd, e) ↦ inl (cd, rw e refl, (cd, (g, e)))
  ];
  owns = λ pod cd. (cd, refl);
  creates = λ cd m g. elim (Option-cases m.stored) [
    | inl e ↦ inl (tt, rw e refl, rw e (cd, (g, refl)))
    | inr (old, e) ↦
        inr (api_error already_exists "already exists", rw e refl, refl, rw e (old, (g, refl)))
  ];
  reads = λ key m l. (l.0, rw l.1.1 refl, l);
  accepts = accepted;
  marshals = λ pod. (_, refl);
  lists = λ key m l. (_, refl, l);
  logs = λ key container previous m l. l;
  answers = λ fc m l. (_, refl, l);
  ticks = λ m l. l;
  stays_good = λ m l. l.1.0;
}

stored_of :
    (stored : Option ClusterDiagnosis) (cd : ClusterDiagnosis)
    → stored_or_absent stored ≡ ok cd
    → stored ≡ some cd
stored_of none cd e = absurd (ground (arith, e))
stored_of (some old) cd e = ground (arith, e)

merging-Steady : Steady merging request crashing_pod crash_loop_back_off "app" Good Live Holds
unfolding k8s_health_ai.Controller.Patch.read_with
merging-Steady = record {
  cooperates = merging-Cooperates;
  first_pod = λ m g. g;
  same_pod = λ cd m h. (h.0, h);
  alive = λ cd m h. (cd, h);
  held = λ m l. l;
  found = λ m cd g e. (g, stored_of m.stored cd e);
  caches = λ cd m h. (rw h.1 refl, h);
  reads = λ cd m h. (rw h.1 refl, h);
  stores = merged;
  ticks = λ cd m h. h;
}

first-AtRest_example :
    AtRest merging request crashing_pod crash_loop_back_off "app" Good Live Holds merging-Steady
      classify_crashing
      (IsReliable-mock "")
      (reconcile_inner merging request (start_with none 0 (10 ^ 9)))
first-AtRest_example =
    first-AtRest merging request crashing_pod crash_loop_back_off "app" Good Live Holds
      merging-Steady classify_crashing (IsReliable-mock "") (start_with none 0 (10 ^ 9)) refl
