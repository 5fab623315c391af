-- ===== src/Remediation/Hints.antt =====
-- internal/remediation/remediation.go: each failure type that Classify reports has hints of its own.
use k8s_health_ai.Prelude.{
  ◌≡◌, refl, inl, inr, ap, sym, ◌∙◌, String, true, some, List, [], ◌∷◌, ◌==◌, if◌then◌else◌, length,
}
use k8s_health_ai.Kube.{Pod}
use k8s_health_ai.Detect.{
  FailureType, oom_killed, init_container_error, crash_loop_back_off, image_pull_back_off,
  pending_scheduling, classify,
}
use k8s_health_ai.Detect.Ladder.{IsKnown}
use k8s_health_ai.Detect.Priority.{classify-IsPrioritised}
use k8s_health_ai.Remediation.{for_failure}

-- the failure type that a list of hints belongs to, by its first hint
owner : List String → FailureType
owner [] = ""
owner (h ∷ hs) =
    if h == "Raise memory request/limit or remove the cap so the workload can use more RAM."
    then oom_killed
    else if h == "Inspect container logs and the previous instance log for the exit stack trace."
    then crash_loop_back_off
    else if h
        == "Confirm image name, tag, and registry DNS from a node that can reach the registry."
    then image_pull_back_off
    else if h == "Read init container logs; fix the failing step before app containers run."
    then init_container_error
    else if h == "Describe the pod for scheduler events (affinity, taints, resources, volumes)."
    then pending_scheduling
    else ""

owner-for_failure : (ft : FailureType) → IsKnown ft → owner (for_failure ft) ≡ ft
unfolding owner for_failure
owner-for_failure ft (inl e) = rw e refl
owner-for_failure ft (inr (inl e)) = rw e refl
owner-for_failure ft (inr (inr (inl e))) = rw e refl
owner-for_failure ft (inr (inr (inr (inl e)))) = rw e refl
owner-for_failure ft (inr (inr (inr (inr e)))) = rw e refl

length-for_failure : (ft : FailureType) → IsKnown ft → length (for_failure ft) ≡ 3
unfolding for_failure
length-for_failure ft (inl e) = rw e refl
length-for_failure ft (inr (inl e)) = rw e refl
length-for_failure ft (inr (inr (inl e))) = rw e refl
length-for_failure ft (inr (inr (inr (inl e)))) = rw e refl
length-for_failure ft (inr (inr (inr (inr e)))) = rw e refl

-- A pod that Classify flags gets three hints, and two flagged pods with the same hints have the
-- same failure type: no flagged pod falls through to the hints of an unknown failure.
pub classify_hints :
    (p q : Pod)
    → (classify (some p)).2 ≡ true
    → (classify (some q)).2 ≡ true
    → (length (for_failure (classify (some p)).0) ≡ 3)
      × (for_failure (classify (some p)).0 ≡ for_failure (classify (some q)).0
          → (classify (some p)).0 ≡ (classify (some q)).0)
classify_hints p q hp hq =
    let kp = (classify-IsPrioritised p).known.0 hp in
    let kq = (classify-IsPrioritised q).known.0 hq in
    (
      length-for_failure _ kp,
      λ e. sym (owner-for_failure _ kp) ∙ ap owner e ∙ owner-for_failure _ kq,
    )
