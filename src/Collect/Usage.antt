-- ===== src/Collect/Usage.antt =====
-- internal/collect/collect.go: what `trimRunes` and `BuildResourceUsage` give.
use k8s_health_ai.Prelude.{
  sym, ℕ, ◌≤◌, ◌<◌, String, Bool-cases, ◌≡◌, refl, none, some, ◌⊎◌, inl, inr, leb, List, [], ◌∷◌,
  ◌++◌, first_some, Option-cases, ◌<>◌, arith,
}
use k8s_health_ai.Go.Strings.{rune_count, slice, take_chars, drop_chars}
use k8s_health_ai.Go.Strings.Laws.{rune_count-take_chars}
use k8s_health_ai.Go.Strings.Positions.{rune_count-append, take-append-drop_chars}
use k8s_health_ai.Collect.{trim_runes, named_container, usage_or_nil, build_resource_usage}
use k8s_health_ai.Kube.{Pod, Container}

drop_chars-zero : (s : String) → drop_chars 0 s ≡ s
unfolding drop_chars
drop_chars-zero s = refl

-- A text of at most `limit` runes is handed on as it is. Of a longer one, the first `limit` runes are
-- handed on, and a line behind them that says so.
pub trim_runes_lem :
    (s : String) (limit : ℕ)
    → ((rune_count s ≤ limit) × (trim_runes s limit ≡ s))
      ⊎ ((kept : String) × (rest : String) × (s ≡ (kept <> rest))
          × (rune_count kept ≡ limit)
          × (0 < rune_count rest)
          × (trim_runes s limit ≡ kept <> "\n... (truncated)"))
unfolding trim_runes slice drop_chars
trim_runes_lem s limit = elim (Bool-cases (leb (rune_count s) limit)) [
  | inl e ↦ inl (ground (arith, e), ground (arith, e))
  | inr e ↦
      let width = rune_count-take_chars limit s (ground (arith, e)) in
      let whole = take-append-drop_chars limit s in
      let sum = rune_count-append (take_chars limit s) (drop_chars limit s) in
      inr (
        take_chars limit s,
        drop_chars limit s,
        sym whole,
        width,
        ground (arith, e, width, rw whole at sum),
        ground (arith, e),
      )
]

named_container-append :
    (name : String) (cs ds : List Container)
    → named_container name (cs ++ ds)
      ≡ elim (named_container name cs) [ some c ↦ some c | none ↦ named_container name ds ]
unfolding named_container first_some
named_container-append name [] ds = refl
named_container-append name (c ∷ cs) ds = ground (arith, named_container-append name cs ds)

-- The usage is that of the first container of the name, where the regular containers stand in front
-- of the init containers; it is nil if there is none, or if the container sets none of the four.
pub build_resource_usage_lem :
    (pod : Pod) (name : String)
    → build_resource_usage (some pod) name
      ≡ usage_or_nil (named_container name (pod.spec.containers ++ pod.spec.init_containers))
unfolding build_resource_usage usage_or_nil
build_resource_usage_lem pod name = elim (Option-cases (named_container name pod.spec.containers)) [
  | inl e ↦
      ground (arith, e, named_container-append name pod.spec.containers pod.spec.init_containers)
  | inr (c, e) ↦
      ground (arith, e, named_container-append name pod.spec.containers pod.spec.init_containers)
]
