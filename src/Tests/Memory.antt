-- ===== src/Tests/Memory.antt =====
-- An API server in memory, with one pod and one diagnosis, that refuses some writes first.
use k8s_health_ai.Prelude.{
  ℕ, zero, suc, ◌+◌, String, Option, none, some, Outcome, ok, err, [], ◌∷◌, ◌==◌, if◌then◌else◌,
}
use k8s_health_ai.Go.Errors.{Error, api_error, not_found, already_exists, conflict}
use k8s_health_ai.Go.Strconv.{format_nat}
use k8s_health_ai.Go.Sort.Insertion.{insertion_sort}
use k8s_health_ai.Kube.{Pod}
use k8s_health_ai.Api.{ClusterDiagnosis}
use k8s_health_ai.World.{Env, Answer, World}
use k8s_health_ai.Llm.Mock.{mock_provider}
use k8s_health_ai.Tests.Data.{crashing_pod, old_event, new_event}

-- `conflicts` writes are still to be refused; `time` is in nanoseconds.
pub record Memory : Type 0 where
  pub pod : Outcome Error Pod
  pub stored : Option ClusterDiagnosis
  pub conflicts : ℕ
  pub time : ℕ

abbrev pub absent : Error
absent = api_error not_found "not found"

abbrev pub stored_or_absent : Option ClusterDiagnosis → Outcome Error ClusterDiagnosis
stored_or_absent none = err absent
stored_or_absent (some cd) = ok cd

abbrev create_in : ClusterDiagnosis → Option ClusterDiagnosis → Memory → Answer × Memory
create_in cd (some old) m = (err (api_error already_exists "already exists"), m)
create_in cd none m = (ok tt, record m { stored = some cd })

abbrev store : ClusterDiagnosis → ℕ → Memory → Answer × Memory
store cd zero m = (ok tt, record m { stored = some cd })
store cd (suc n) m = (err (api_error conflict "conflict"), record m { conflicts = n })

-- the instants that the tests print
abbrev parse_seconds : String → Option ℕ
parse_seconds s = if s == "60000000000" then some 60000000000 else none

abbrev pub memory : Env Memory
memory = record {
  get_pod = λ key m. (m.pod, m);
  get_cached = λ key m. (stored_or_absent m.stored, m);
  api_reader = none;
  set_controller_reference = λ pod cd. ok cd;
  create = λ cd m. create_in cd m.stored m;
  update_status = λ cd m. store cd m.conflicts m;
  update = λ cd m. store cd m.conflicts m;
  list_events = λ key m. (ok (old_event ∷ new_event ∷ []), m);
  get_logs = λ key container previous m. (ok "panic: nil map", m);
  diagnose = mock_provider "";
  now = λ m. (m.time, m);
  sleep = λ n m. record m { time = m.time + n };
  marshal_spec = λ spec. ok spec.rest;
  sort_events = insertion_sort;
  parse_time = parse_seconds;
  format_time = format_nat;
  sha256_hex = λ s. s;
}

abbrev pub start_with : Option ClusterDiagnosis → ℕ → ℕ → World Memory
start_with cd conflicts time = record {
  state = record { pod = ok crashing_pod; stored = cd; conflicts = conflicts; time = time };
  calls = [];
}
