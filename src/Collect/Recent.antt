-- ===== src/Collect/Recent.antt =====
-- internal/collect/collect.go: what `summarizeEvents` keeps of a pod's events.
use mathlib.Core.List.{Perm}
use k8s_health_ai.Prelude.{
  ℕ, zero, suc, ◌+◌, ◌≤◌, String, Bool, false, ◌≡◌, refl, ◌⊎◌, List, [], ◌∷◌, ◌++◌, map, All,
  length, length-take-le, none, some, Option, Option-cases, inl, inr, All-weaken, IsOrdered, take,
  drop, take-append-drop, full-or-all, take-ahead-drop, arith,
}
use k8s_health_ai.Go.Sort.{IsStrictWeak, SortLaws}
use k8s_health_ai.Kube.{Event}
use k8s_health_ai.Collect.{rank, event_rank, newer, event_line, event_loop, summarize_events}

newer-IsStrictWeak : IsStrictWeak newer
unfolding newer
newer-IsStrictWeak = record {
  irreflexive = λ a. ground arith;
  transitive = λ a b c h k. ground (arith, h, k);
  negatively = λ a b c h k. ground (arith, h, k);
}

event_loop-take : (i n : ℕ) (es : List Event) → event_loop i (i + n) es ≡ map event_line (take n es)
unfolding event_loop
event_loop-take i zero [] = refl
event_loop-take i (suc n) [] = refl
event_loop-take i zero (e ∷ es) = ground arith
event_loop-take i (suc n) (e ∷ es) = ground (arith, event_loop-take (suc i) n es)

-- when an event happened, where the cluster says so: its last timestamp, else its event time
abbrev pub instant : Event → Option ℕ
instant e = elim e.last_timestamp [ none ↦ e.event_time | some t ↦ some t ]

-- One moment is no later than another; an unknown one is earlier than all that are known.
pub data IsNoLater : Option ℕ → Option ℕ → Type 0 where
  unknown : {t : Option ℕ} → IsNoLater none t
  known : {s t : ℕ} → s ≤ t → IsNoLater (some s) (some t)

rank-IsNoLater : (s t : Option ℕ) → rank s ≤ rank t → IsNoLater s t
rank-IsNoLater none t h = unknown
rank-IsNoLater (some s) none h = absurd (omega (arith, h))
rank-IsNoLater (some s) (some t) h = known (omega (arith, h))

not_newer-IsNoLater : (d k : Event) → newer d k ≡ false → IsNoLater (instant d) (instant k)
unfolding newer event_rank
not_newer-IsNoLater d k h = elim (Option-cases d.last_timestamp) [
  | inl e ↦ elim (Option-cases k.last_timestamp) [
    | inl f ↦ rw (e, f) (rank-IsNoLater d.event_time k.event_time (ground (arith, h, e, f)))
    | inr (t, f) ↦ rw (e, f) (rank-IsNoLater d.event_time (some t) (ground (arith, h, e, f)))
  ]
  | inr (s, e) ↦ elim (Option-cases k.last_timestamp) [
    | inl f ↦ rw (e, f) (rank-IsNoLater (some s) k.event_time (ground (arith, h, e, f)))
    | inr (t, f) ↦ rw (e, f) (rank-IsNoLater (some s) (some t) (ground (arith, h, e, f)))
  ]
]

-- each event happened no later than those in front of it
abbrev pub IsNewestFirst : List Event → Type 0
IsNewestFirst [] = Unit
IsNewestFirst (k ∷ ks) = All (λ d. IsNoLater (instant d) (instant k)) ks × IsNewestFirst ks

All-take : (P : Event → Type 0) (n : ℕ) (es : List Event) → All P es → All P (take n es)
All-take P zero es h = tt
All-take P (suc n) [] h = tt
All-take P (suc n) (e ∷ es) (p, h) = (p, All-take P n es h)

IsNewestFirst-take : (n : ℕ) (es : List Event) → IsOrdered newer es → IsNewestFirst (take n es)
IsNewestFirst-take zero es h = tt
IsNewestFirst-take (suc n) [] h = tt
IsNewestFirst-take (suc n) (k ∷ es) (h, hs) = (
  All-take (λ d. IsNoLater (instant d) (instant k)) n es
      (All-weaken es (λ d. not_newer-IsNoLater d k) h),
  IsNewestFirst-take n es hs,
)

All-IsNoLater :
    (kept dropped : List Event)
    → All (λ k. All (λ d. newer d k ≡ false) dropped) kept
    → All (λ k. All (λ d. IsNoLater (instant d) (instant k)) dropped) kept
All-IsNoLater kept dropped = All-weaken kept λ k. All-weaken dropped λ d. not_newer-IsNoLater d k

-- The lines are those of the events kept, at most `limit` of them, the newest first, and each event
-- left out happened no later than each that is kept. An event is left out only where `limit` are kept.
pub record MostRecent (items : List Event) (limit : ℕ) (lines : List String) : Type 0 where
  pub kept : List Event
  pub dropped : List Event
  pub printed : lines ≡ map event_line kept
  pub all_there : Perm (kept ++ dropped) items
  pub bounded : length kept ≤ limit
  pub full : (length kept ≡ limit) ⊎ (dropped ≡ [])
  pub newest_first : IsNewestFirst kept
  pub newest : All (λ k. All (λ d. IsNoLater (instant d) (instant k)) dropped) kept

module _ (sort : (Event → Event → Bool) → List Event → List Event) (laws : SortLaws sort) where
  -- With a `sort.Slice` that permutes its items and orders them, the lines are those of at most
  -- `limit` of the events, by their last timestamp or, without one, their event time: the newest
  -- first, and none of them older than an event left out; an event is left out only where `limit`
  -- are kept.
  pub summarize_events-MostRecent :
      (items : List Event) (limit : ℕ) → MostRecent items limit (summarize_events sort items limit)
  unfolding summarize_events
  summarize_events-MostRecent items limit = record {
    kept = take limit (sort newer items);
    dropped = drop limit (sort newer items);
    printed = ground (arith, event_loop-take 0 limit (sort newer items));
    all_there = rw (take-append-drop limit (sort newer items)) (laws.permutes newer items);
    bounded = length-take-le limit (sort newer items);
    full = full-or-all limit (sort newer items);
    newest_first =
        IsNewestFirst-take limit (sort newer items) (laws.ordered newer newer-IsStrictWeak items);
    newest =
        All-IsNoLater (take limit (sort newer items)) (drop limit (sort newer items))
          (take-ahead-drop newer limit _ (laws.ordered newer newer-IsStrictWeak items));
  }
