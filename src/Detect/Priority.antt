-- ===== src/Detect/Priority.antt =====
-- internal/detect/detect.go, `Classify`: the five failure types in their order of priority.
use k8s_health_ai.Prelude.{
  ◌≡◌, ◌≢◌, inl, inr, ◌⊎◌, ◌↔◌, String, Bool, true, none, some, List, arith, eq_iff, Any,
  first_some, first_some-FirstHit, Decided, first_some-Decided,
}
use k8s_health_ai.Kube.{PodCondition, ContainerStatus, Pod}
use k8s_health_ai.Detect.{
  FailureType, crash_loop_back_off, image_pull_back_off, oom_body, init_body, waiting_body,
  config_body, scheduled_condition, is_unschedulable, classify_pending_scheduling, classify_pending,
  classify_waiting, classify,
}
use k8s_health_ai.Detect.Classification.{
  WasOomKilled, FailedInit, IsStuck, LacksConfig, oom_body-Decides, init_body-Decides,
  config_body-Decides, waiting_body-Decides, waiting_body-type,
}
use mathlib.Core.List.{[], ◌∷◌}
use k8s_health_ai.Detect.Ladder.{
  IsLadder, IsLadder-oom, IsLadder-init, IsLadder-image, IsLadder-crash, IsLadder-pending,
  IsLadder-none,
}

-- The first condition of type PodScheduled is False, for one of the two reasons.
abbrev pub IsUnschedulable : List PodCondition → Type 0
IsUnschedulable [] = ⊥
IsUnschedulable (c ∷ cs) =
    ((c.type ≡ "PodScheduled")
      × (c.status ≡ "False")
      × ((c.reason ≡ "FailedScheduling") ⊎ (c.reason ≡ "Unschedulable")))
    ⊎ ((c.type ≢ "PodScheduled") × IsUnschedulable cs)

abbrev pub HasOom : Pod → Type 0
HasOom pod =
    Any WasOomKilled pod.status.container_statuses
    ⊎ Any WasOomKilled pod.status.init_container_statuses

abbrev pub HasFailedInit : Pod → Type 0
HasFailedInit pod = Any FailedInit pod.status.init_container_statuses

abbrev pub HasStuck : Pod → Type 0
HasStuck pod = Any IsStuck pod.status.container_statuses

abbrev IsMisconfigured : ContainerStatus → Type 0
IsMisconfigured cs = LacksConfig cs.state.waiting

abbrev pub IsPendingFailure : Pod → Type 0
IsPendingFailure pod =
    (pod.status.phase ≡ "Pending")
    × (IsUnschedulable pod.status.conditions
        ⊎ Any IsMisconfigured pod.status.init_container_statuses
        ⊎ Any IsMisconfigured pod.status.container_statuses)

IsUnschedulable-iff :
    (cs : List PodCondition)
    → (is_unschedulable (scheduled_condition cs) ≡ true) ↔ IsUnschedulable cs
unfolding is_unschedulable scheduled_condition first_some
IsUnschedulable-iff [] = ground arith
IsUnschedulable-iff (c ∷ cs) = ground (
  arith,
  IsUnschedulable-iff cs,
  eq_iff c.type "PodScheduled",
  eq_iff c.status "False",
  eq_iff c.reason "FailedScheduling",
  eq_iff c.reason "Unschedulable",
)

abbrev pub PendingDecided : Pod → Type 0
PendingDecided pod =
    ((name : String) × (classify_pending_scheduling pod ≡ some name) × IsPendingFailure pod)
    ⊎ ((classify_pending_scheduling pod ≡ none) × ¬ IsPendingFailure pod)

pending-Decided : (pod : Pod) → PendingDecided pod
unfolding classify_pending_scheduling
pending-Decided pod = ground (
  arith,
  eq_iff pod.status.phase "Pending",
  IsUnschedulable-iff pod.status.conditions,
  first_some-Decided config_body IsMisconfigured config_body-Decides
      pod.status.init_container_statuses,
  first_some-Decided config_body IsMisconfigured config_body-Decides pod.status.container_statuses,
)

abbrev WaitingDecided : List ContainerStatus → Type 0
WaitingDecided cs =
    ((name : String) × (first_some waiting_body cs ≡ some (image_pull_back_off, name))
      × Any IsStuck cs)
    ⊎ ((name : String) × (first_some waiting_body cs ≡ some (crash_loop_back_off, name))
        × Any IsStuck cs)
    ⊎ ((first_some waiting_body cs ≡ none) × ¬ Any IsStuck cs)

waiting-Decided : (cs : List ContainerStatus) → WaitingDecided cs
waiting-Decided cs = elim (first_some-Decided waiting_body IsStuck waiting_body-Decides cs) [
  | inl ((ft, name), e, s) ↦
      let hit = first_some-FirstHit waiting_body cs e in
      elim (waiting_body-type hit.item hit.hit) [
        | inl (t, _, _) ↦ inl (name, ground (arith, e, t), s)
        | inr (t, _, _) ↦ inr (inl (name, ground (arith, e, t), s))
      ]
  | inr (e, ns) ↦ inr (inr (e, ns))
]

-- The four conditions of a pod against what Classify answers.
abbrev pub IsPrioritised : Pod → FailureType × String × Bool → Type 0
IsPrioritised pod = IsLadder (HasOom pod) (HasFailedInit pod) (HasStuck pod) (IsPendingFailure pod)

module _ (pod : Pod) where
  oom_containers : Decided oom_body WasOomKilled pod.status.container_statuses
  oom_containers = first_some-Decided oom_body WasOomKilled oom_body-Decides _

  oom_inits : Decided oom_body WasOomKilled pod.status.init_container_statuses
  oom_inits = first_some-Decided oom_body WasOomKilled oom_body-Decides _

  failed_inits : Decided init_body FailedInit pod.status.init_container_statuses
  failed_inits = first_some-Decided init_body FailedInit init_body-Decides _

  stuck_containers : WaitingDecided pod.status.container_statuses
  stuck_containers = waiting-Decided pod.status.container_statuses

  pending-IsPrioritised :
      ¬ HasOom pod → ¬ HasFailedInit pod → ¬ HasStuck pod → IsPrioritised pod (classify_pending pod)
  unfolding classify_pending
  pending-IsPrioritised no_oom no_init no_stuck = elim (pending-Decided pod) [
    | inl (name, e, p) ↦ rw (e, classify_pending) (IsLadder-pending name no_oom no_init no_stuck p)
    | inr (e, np) ↦ rw (e, classify_pending) (IsLadder-none "" no_oom no_init no_stuck np)
  ]

  waiting-IsPrioritised :
      ¬ HasOom pod → ¬ HasFailedInit pod → IsPrioritised pod (classify_waiting pod)
  unfolding classify_waiting
  waiting-IsPrioritised no_oom no_init = elim stuck_containers [
    | inl (name, e, s) ↦ rw (e, classify_waiting) (IsLadder-image name no_oom no_init s)
    | inr r ↦ elim r [
      | inl (name, e, s) ↦ rw (e, classify_waiting) (IsLadder-crash name no_oom no_init s)
      | inr (e, ns) ↦ rw (e, classify_waiting) (pending-IsPrioritised no_oom no_init ns)
    ]
  ]

  -- Classify answers by the first of the four conditions that holds: a container killed for its
  -- memory, a failed init container, a stuck container, a pending pod that cannot be placed or
  -- configured. Its flag is true exactly if one of them holds.
  pub classify-IsPrioritised : IsPrioritised pod (classify (some pod))
  unfolding classify
  classify-IsPrioritised = elim oom_containers [
    | inl (name, e, o) ↦ rw (e, classify) (IsLadder-oom name (inl o))
    | inr (e1, n1) ↦ elim oom_inits [
      | inl (name, e, o) ↦ rw (e1, classify) (rw (e, classify) (IsLadder-oom name (inr o)))
      | inr (e2, n2) ↦
          let no_oom : ¬ HasOom pod = elim [ inl o ↦ n1 o | inr o ↦ n2 o ] in
          elim failed_inits [
            | inl (name, e, i) ↦
                rw (e1, classify)
                  (rw (e2, classify) (rw (e, classify) (IsLadder-init name no_oom i)))
            | inr (e3, n3) ↦
                rw (e1, classify)
                  (rw (e2, classify) (rw (e3, classify) (waiting-IsPrioritised no_oom n3)))
          ]
    ]
  ]
