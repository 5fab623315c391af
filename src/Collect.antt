-- ===== src/Collect.antt =====
-- internal/collect/collect.go: the context of a failing pod for the LLM, and its resource usage.
pub mod Gather
pub mod Costs
pub mod Recent
pub mod Usage
use k8s_health_ai.Prelude.{
  ℕ, suc, String, Bool, true, false, ◌&&◌, ◌||◌, not, Option, none, some, Outcome, ok, err, List,
  [], ◌∷◌, ◌==◌, ltb, leb, ◌<>◌, if◌then◌else◌, first_some,
}
use k8s_health_ai.Go.Strings.{trim_space, rune_count, slice}
use k8s_health_ai.Go.Errors.{Error}
use k8s_health_ai.Kube.{Event, Container, Pod}
use k8s_health_ai.Api.{ResourceUsage, lookup}
use k8s_health_ai.Detect.{FailureType, crash_loop_back_off, oom_killed}

abbrev pub max_events : ℕ
max_events = 20

abbrev pub max_log_runes : ℕ
max_log_runes = 12000

-- The instants in order; the zero time comes before all others.
abbrev pub rank : Option ℕ → ℕ
rank none = 0
rank (some t) = suc t

-- LastTimestamp, or EventTime where that is zero
unfoldable pub event_rank : Event → ℕ
event_rank e = elim e.last_timestamp [ none ↦ rank e.event_time | some t ↦ suc t ]

-- the order that summarizeEvents hands to sort.Slice: `a` comes in front of `b`
unfoldable pub newer : Event → Event → Bool
newer a b = ltb (event_rank b) (event_rank a)

unfoldable pub event_line : Event → String
event_line e = e.type <> " " <> e.reason <> " " <> e.message

-- the loop over the sorted events from the index `i` on
unfoldable pub event_loop : ℕ → ℕ → List Event → List String
event_loop i limit [] = []
event_loop i limit (e ∷ es) =
    let rest = event_loop (suc i) limit es in if leb limit i then [] else event_line e ∷ rest

module _ (sort_events : (Event → Event → Bool) → List Event → List Event) where
  unfoldable pub summarize_events : List Event → ℕ → List String
  summarize_events items limit = event_loop 0 limit (sort_events newer items)

unfoldable pub want_previous : FailureType → Bool
want_previous ft = ft == crash_loop_back_off || ft == oom_killed

-- `err == nil && strings.TrimSpace(s) != ""`
unfoldable pub is_useful : Outcome Error String → Bool
is_useful (ok s) = not (trim_space s == "")
is_useful (err e) = false

unfoldable pub trim_runes : String → ℕ → String
trim_runes s limit = if leb (rune_count s) limit then s else slice s 0 limit <> "\n... (truncated)"

abbrev text_of : Option String → String
text_of none = ""
text_of (some q) = q

-- the container of that name: `c.Name == container`
unfoldable pub named_container : String → List Container → Option Container
named_container name = first_some λ (c : Container). if c.name == name then some c else none

unfoldable pub usage_of : Container → ResourceUsage
usage_of c = record {
  cpu_request = text_of (lookup "cpu" c.requests);
  cpu_limit = text_of (lookup "cpu" c.limits);
  memory_request = text_of (lookup "memory" c.requests);
  memory_limit = text_of (lookup "memory" c.limits);
}

unfoldable pub is_empty_usage : ResourceUsage → Bool
is_empty_usage ru =
    ru.cpu_request == "" && ru.cpu_limit == "" && ru.memory_request == "" && ru.memory_limit == ""

-- the part of BuildResourceUsage behind the search; `none` is a nil pointer
unfoldable pub usage_or_nil : Option Container → Option ResourceUsage
usage_or_nil none = none
usage_or_nil (some c) = let ru = usage_of c in if is_empty_usage ru then none else some ru

-- BuildResourceUsage
unfoldable pub build_resource_usage : Option Pod → String → Option ResourceUsage
build_resource_usage none container = none
build_resource_usage (some pod) container = elim (named_container container pod.spec.containers) [
  | some c ↦ usage_or_nil (some c)
  | none ↦ usage_or_nil (named_container container pod.spec.init_containers)
]
