-- ===== src/Lib.antt =====
-- k8s-health-ai is a Kubernetes operator. It watches pods, classifies their failures, gathers events
-- and logs, asks an LLM for a diagnosis and stores it in a ClusterDiagnosis resource.
--
-- The parts, and the files that model them:
--   * api/v1alpha1/clusterdiagnosis_types.go (Api): the resource as records with Go's fields; Kube
--     has the fields of a Pod and an Event that the program reads.
--   * internal/detect/detect.go (Detect): Classify, Fingerprint and DiagnosisName, with a loop that
--     returns at its first hit as `first_some`. Its children state what each test finds.
--   * internal/collect/collect.go (Collect, Collect/Gather): summarizeEvents, fetchLogs, trimRunes,
--     BuildResourceUsage and Gather.
--   * internal/remediation/remediation.go (Remediation): the hints of ForFailure.
--   * internal/llm/provider.go (Llm): the prompt, and the parsing of the model's answer.
--   * internal/llm/openai.go, azure_openai.go, ollama.go, vertex.go, bedrock.go and mock.go
--     (Llm/OpenAi and so on): the constructors and the methods Diagnose, with the bodies of requests
--     and replies in Llm/Messages. internal/llm/ratelimit.go
--     (Llm/RateLimit) and internal/llm/factory.go (Llm/Factory): the limit and NewFromEnv. What
--     they call is the record Llm.Services: the environment, JSON, HTTP, the SDK clients and the
--     limiter, over a state of any type.
--   * internal/controller/pod_controller.go (Controller): Controller/Rate is the test of the
--     annotation last-llm-call, Controller/Patch the loops that read, mutate and write a diagnosis,
--     Controller/Changes the functions that they are given, and Controller/Reconcile Reconcile and
--     reconcileInner with fail and the event filter.
--     Reconcile/Decides is about what a run decides before any work, Reconcile/Steady and
--     Reconcile/Settles about runs where nothing but the reconciler writes, Reconcile/Cooldown about
--     the five minutes behind an LLM call.
--     Controller/Lifecycle has the life of a diagnosis as a step relation: Lifecycle/Sound is about
--     the objects that it reaches, Lifecycle/Watch is an interface of what the calls of a run
--     maintain, Lifecycle/Maintained puts a run together from it, and Lifecycle/Ordered and
--     Lifecycle/Stored fill it, for the trace of a run and for the server of Lifecycle/Server, which
--     keeps versions.
--   * cmd/diagctl/main.go (Diagctl): Diagctl/Usage has the texts, Diagctl/Console the cluster and what
--     is printed, Diagctl/Arguments the flags and the tests of the arguments, Diagctl/Resolve
--     resolveDiagnosis, Diagctl/Listing the order and the table, Diagctl/Commands the commands and
--     main. Diagctl/Deletes, Diagctl/Exits, Diagctl/Listed and Diagctl/Invocation are about them;
--     Diagctl/Steps carries a relation between consoles from the steps of a command to the whole.
--   * cmd/manager/main.go (Manager): the flags, the calls of the start and the exit codes, with the
--     reconciler's SetupWithManager.
--   * api/v1alpha1/zz_generated.deepcopy.go (DeepCopy): DeepCopyInto and DeepCopy, on objects whose
--     pointers and slices are addresses in a memory with a store for each type. The copy of ObjectMeta
--     and the writes through its map and slice are the library's.
--   * internal/metrics/metrics.go (Metrics): the three vectors, init, and the samples of
--     RecordDiagnosis, ObserveReconcile and ObserveLLMCall. The reconciler's samples are entries of
--     its trace (Metrics/Reported); MeasuredProvider stands in Llm/Measured.
--   * api/v1alpha1/register.go and groupversion_info.go (Scheme), with the functions init of the two
--     commands.
--   * Go has what the source uses of Go's library (strings, strconv, sort, errors, flag, time,
--     text/tabwriter), and Prelude the tests, lists and int64 arithmetic.
--
-- How they interact: the reconciler calls Classify on the pod it reads, Gather, the LLM, and the
-- patches. What it acts on is the record World.Env: the API server, its cache, the logs, the clock
-- and the LLM as functions over a state of any type. A run is a function from a World (that state,
-- and the list of the calls made) to a result or an error and the next World, so that a theorem can
-- speak of the calls that a run makes, whatever the server answers between them.
--
-- The command line acts on a Console: the state of the cluster, the texts printed, and the requests
-- made, so that a theorem can speak of what a command deletes. The start of the manager calls
-- NewFromEnv of Llm/Factory and hands its provider to the controller, whose events pass the filter
-- of Controller/Reconcile.
--
-- Parameters, since their code is not part of the repository: the clients of the API server,
-- SetControllerReference, the manager and the builder of controller-runtime, the copies of
-- ObjectMeta, ListMeta and Condition, yaml.Marshal, the SDK clients and the limiter of the LLM
-- backends, the scheme of apimachinery, and the registry and the vectors of Prometheus. Of Go's
-- library, these are parameters too: the environment, HTTP and URLs, JSON, the verb %q, the parsing
-- and printing of RFC 3339 times, the print of a SHA-256 sum, and sort.Slice, with the promises of
-- its documentation in Go/Sort and an insertion sort that keeps them.
--
-- Bounds: a patch makes eight attempts, as in the source, by recursion on those left. The digits
-- of a number n are printed with n rounds of fuel, which are more than it has digits. All other
-- loops follow a list or a text. A duration is an int64 of nanoseconds that saturates in time.Since
-- and wraps around in a subtraction; an instant is a number of nanoseconds since a distant origin.
--
-- Not modelled: contexts and their cancellation, the buckets of the histograms, the manager's logger
-- and signal handler, errors of the standard output, and texts that are not valid UTF-8.
pub mod Prelude
pub mod Go
pub mod Api
pub mod Kube
pub mod Detect
pub mod Action
pub mod Llm
pub mod Remediation
pub mod World
pub mod Metrics
pub mod Scheme
pub mod Collect
pub mod Controller
pub mod Diagctl
pub mod Manager
pub mod DeepCopy
pub mod Tests
