-- ===== src/Detect/Prints.antt =====
-- internal/detect/detect.go: the container that Classify names has a fingerprint of its own.
use k8s_health_ai.Prelude.{
  ◌≡◌, refl, inl, inr, ◌⊎◌, String, Bool, true, Option, some, Option-cases, List, [], ◌∷◌, ◌==◌,
  eq_iff, arith, Any, first_some, first_some-Decided, Decides, Decides-if,
}
use k8s_health_ai.Kube.{ContainerStatus, Pod}
use k8s_health_ai.Detect.{
  FailureType, pending_scheduling, oom_body, init_body, waiting_body, config_body,
  classify_pending_scheduling, classify_pending, classify_waiting, classify, fingerprint_body,
  write_container_fingerprint, fingerprint, waiting_failure,
}

-- the status has that name
abbrev pub Named : String → ContainerStatus → Type 0
Named name cs = cs.name ≡ name

-- the status has that name and prints so
abbrev pub PrintsAs : String → String → ContainerStatus → Type 0
PrintsAs name fp cs = (cs.name ≡ name) × (fp ≡ write_container_fingerprint cs)

-- a loop that answers has met a status that it answers for
hit-Any :
    {B : Type 0} (body : ContainerStatus → Option B) (P : ContainerStatus → Type 0)
    (css : List ContainerStatus) (b : B)
    → ((cs : ContainerStatus) → body cs ≡ some b → P cs)
    → first_some body css ≡ some b
    → Any P css
unfolding first_some
hit-Any body P [] b h e = cc
hit-Any body P (cs ∷ css) b h e = elim (Option-cases (body cs)) [
  | inl miss ↦ inr (hit-Any body P css b h (rw (miss, first_some) at e))
  | inr (c, found) ↦ inl (h cs (ground (arith, found, e)))
]

oom_body-Named : (name : String) (cs : ContainerStatus) → oom_body cs ≡ some name → Named name cs
unfolding oom_body
oom_body-Named name cs e = ground (arith, e)

init_body-Named : (name : String) (cs : ContainerStatus) → init_body cs ≡ some name → Named name cs
unfolding init_body
init_body-Named name cs e = ground (arith, e)

config_body-Named :
    (name : String) (cs : ContainerStatus) → config_body cs ≡ some name → Named name cs
unfolding config_body
config_body-Named name cs e = ground (arith, e)

waiting_body-Named :
    (ft : FailureType) (name : String) (cs : ContainerStatus)
    → waiting_body cs ≡ some (ft, name)
    → Named name cs
unfolding waiting_body
waiting_body-Named ft name cs e = elim (Option-cases (waiting_failure cs.state.waiting)) [
  | inl miss ↦ absurd (ground (arith, miss, e))
  | inr (t, found) ↦ ground (arith, found, e)
]

-- a status of the pod has the property, a container's or an init container's
abbrev pub OfPod : (ContainerStatus → Type 0) → Pod → Type 0
OfPod P pod = Any P pod.status.container_statuses ⊎ Any P pod.status.init_container_statuses

-- No container is named, since the pod cannot be scheduled; or the one that is named is of the pod.
abbrev pub NamesOne : Pod → FailureType × String × Bool → Type 0
NamesOne pod (ft, name, found) = ((ft ≡ pending_scheduling) × (name ≡ "")) ⊎ OfPod (Named name) pod

pending-Named :
    (pod : Pod) (name : String)
    → classify_pending_scheduling pod ≡ some name
    → (name ≡ "") ⊎ OfPod (Named name) pod
unfolding classify_pending_scheduling
pending-Named pod name e =
    elim (Option-cases (first_some config_body pod.status.init_container_statuses)) [
      | inr (n, found) ↦
          grind (arith, e, found, hit-Any config_body (Named n) _ n (config_body-Named n) found)
      | inl miss ↦ grind (
        arith,
        e,
        miss,
        hit-Any config_body (Named name) pod.status.container_statuses name
            (config_body-Named name),
      )
    ]

flagged-NamesOne :
    (pod : Pod) → (classify_pending pod).2 ≡ true → NamesOne pod (classify_pending pod)
unfolding classify_pending
flagged-NamesOne pod h = elim (Option-cases (classify_pending_scheduling pod)) [
  | inl miss ↦ absurd (ground (arith, miss, h))
  | inr (name, e) ↦
      rw (classify_pending, e)
        (elim (pending-Named pod name e) [
          | inl empty ↦ inl (refl, empty)
          | inr of_pod ↦ inr of_pod
        ])
]

waiting-NamesOne :
    (pod : Pod) → (classify_waiting pod).2 ≡ true → NamesOne pod (classify_waiting pod)
unfolding classify_waiting
waiting-NamesOne pod h =
    elim (Option-cases (first_some waiting_body pod.status.container_statuses)) [
      | inl miss ↦
          rw (classify_waiting, miss) (flagged-NamesOne pod (rw (classify_waiting, miss) at h))
      | inr ((ft, name), e) ↦
          rw (classify_waiting, e)
            (inr
              (inl (hit-Any waiting_body (Named name) _ (ft, name) (waiting_body-Named ft name) e)))
    ]

classify-NamesOne :
    (pod : Pod) → (classify (some pod)).2 ≡ true → NamesOne pod (classify (some pod))
unfolding classify
classify-NamesOne pod h = elim (Option-cases (first_some oom_body pod.status.container_statuses)) [
  | inr (name, e) ↦
      rw (classify, e) (inr (inl (hit-Any oom_body (Named name) _ name (oom_body-Named name) e)))
  | inl e1 ↦ elim (Option-cases (first_some oom_body pod.status.init_container_statuses)) [
    | inr (name, e) ↦
        rw (classify, e1, e)
          (inr (inr (hit-Any oom_body (Named name) _ name (oom_body-Named name) e)))
    | inl e2 ↦ elim (Option-cases (first_some init_body pod.status.init_container_statuses)) [
      | inr (name, e) ↦
          rw (classify, e1, e2, e)
            (inr (inr (hit-Any init_body (Named name) _ name (init_body-Named name) e)))
      | inl e3 ↦ rw (classify, e1, e2, e3) (waiting-NamesOne pod (rw (classify, e1, e2, e3) at h))
    ]
  ]
]

fingerprint_body-Decides :
    (name : String) (cs : ContainerStatus) → Decides (fingerprint_body name) (Named name) cs
unfolding fingerprint_body
fingerprint_body-Decides name =
    Decides-if (λ cs. cs.name == name) write_container_fingerprint (Named name)
      λ cs. eq_iff cs.name name

fingerprint_body-PrintsAs :
    (name fp : String) (cs : ContainerStatus)
    → fingerprint_body name cs ≡ some fp
    → PrintsAs name fp cs
unfolding fingerprint_body
fingerprint_body-PrintsAs name fp cs e = ground (arith, e, eq_iff cs.name name)

-- the fingerprint of a container that the pod has
Named-PrintsAs :
    (pod : Pod) (name : String)
    → OfPod (Named name) pod
    → OfPod (PrintsAs name (fingerprint pod name)) pod
unfolding fingerprint
Named-PrintsAs pod name h =
    elim (first_some-Decided (fingerprint_body name) (Named name) (fingerprint_body-Decides name)
      pod.status.container_statuses) [
        | inl (fp, e, any) ↦
            rw (fingerprint, e)
              (inl (hit-Any _ (PrintsAs name fp) _ fp (fingerprint_body-PrintsAs name fp) e))
        | inr (e, none_named) ↦
            elim (first_some-Decided (fingerprint_body name) (Named name)
              (fingerprint_body-Decides name) pod.status.init_container_statuses) [
                | inl (fp, e', any) ↦
                    rw (fingerprint, e, e')
                      (inr
                        (hit-Any _ (PrintsAs name fp) _ fp (fingerprint_body-PrintsAs name fp) e'))
                | inr (e', no_init) ↦ elim h [
                  | inl a ↦ absurd (none_named a)
                  | inr a ↦ absurd (no_init a)
                ]
              ]
      ]

-- A pod that Classify flags is flagged for its scheduling with no container named, or the container
-- that Classify names is one of the pod's, and then the fingerprint of the pod and this container is
-- that of a status of its name, and not the text of a missing container.
pub classify-PrintsAs :
    (pod : Pod)
    → (classify (some pod)).2 ≡ true
    → let (ft, container, found) = classify (some pod) in
      ((ft ≡ pending_scheduling) × (container ≡ ""))
      ⊎ OfPod (PrintsAs container (fingerprint pod container)) pod
classify-PrintsAs pod h = elim (classify-NamesOne pod h) [
  | inl unscheduled ↦ inl unscheduled
  | inr of_pod ↦ inr (Named-PrintsAs pod _ of_pod)
]
