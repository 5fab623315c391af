-- ===== src/Go/Tabwriter/Laws.antt =====
-- Go's package `text/tabwriter`: the rows of a table stand in the same columns.
use k8s_health_ai.Prelude.{
  ℕ, zero, suc, ◌-◌, ◌≤◌, ◌≡◌, refl, String, List, [], ◌∷◌, All, All-weaken, ◌<>◌, arith,
}
use k8s_health_ai.Go.Strings.{rune_count}
use k8s_health_ai.Go.Strings.Positions.{rune_count-append}
use k8s_health_ai.Go.Tabwriter.{cell_widths, widest, column_widths, blanks, pad, print_row}

-- The text has the cells of the row, each but the last as wide as its column says, and with two
-- blanks or more behind it.
abbrev pub IsAligned : List ℕ → List String → String → Type 0
IsAligned ws [] s = s ≡ ""
IsAligned ws (c ∷ []) s = s ≡ c
IsAligned [] (c ∷ d ∷ cs) s = ⊥
IsAligned (w ∷ ws) (c ∷ d ∷ cs) s =
    (k : ℕ) × (rest : String) × (2 ≤ k)
    × (rune_count (c <> blanks k) ≡ w)
    × (s ≡ (c <> blanks k) <> rest)
    × IsAligned ws (d ∷ cs) rest

-- the columns are as wide as the row needs
abbrev Fits : List ℕ → List ℕ → Type 0
Fits ws [] = Unit
Fits [] (v ∷ vs) = ⊥
Fits (w ∷ ws) (v ∷ vs) = (v ≤ w) × Fits ws vs

Fits-refl : (ws : List ℕ) → Fits ws ws
Fits-refl [] = tt
Fits-refl (w ∷ ws) = (omega arith, Fits-refl ws)

Fits-widest_left : (us vs : List ℕ) → Fits (widest us vs) us
unfolding widest
Fits-widest_left [] vs = tt
Fits-widest_left (u ∷ us) [] = Fits-refl (u ∷ us)
Fits-widest_left (u ∷ us) (v ∷ vs) = (ground arith, Fits-widest_left us vs)

Fits-widest_right : (us vs ws : List ℕ) → Fits vs ws → Fits (widest us vs) ws
unfolding widest
Fits-widest_right us vs [] h = tt
Fits-widest_right [] vs (w ∷ ws) h = h
Fits-widest_right (u ∷ us) [] (w ∷ ws) h = absurd h
Fits-widest_right (u ∷ us) (v ∷ vs) (w ∷ ws) (h, hs) = (ground arith, Fits-widest_right us vs ws hs)

Fits-columns :
    (rows : List (List String)) → All (λ row. Fits (column_widths rows) (cell_widths row)) rows
unfolding column_widths
Fits-columns [] = tt
Fits-columns (row ∷ rows) = (
  Fits-widest_left (cell_widths row) (column_widths rows),
  All-weaken rows (λ r h. Fits-widest_right (cell_widths row) _ (cell_widths r) h)
      (Fits-columns rows),
)

rune_count-blanks : (n : ℕ) → rune_count (blanks n) ≡ n
unfolding rune_count blanks
rune_count-blanks zero = refl
rune_count-blanks (suc n) = omega (arith, rune_count-blanks n)

print_row-IsAligned :
    (ws : List ℕ) (row : List String)
    → Fits ws (cell_widths row)
    → IsAligned ws row (print_row ws row)
unfolding print_row cell_widths pad
print_row-IsAligned ws [] h = refl
print_row-IsAligned [] (c ∷ []) h = refl
print_row-IsAligned (w ∷ ws) (c ∷ []) h = refl
print_row-IsAligned [] (c ∷ d ∷ cs) h = absurd h
print_row-IsAligned (w ∷ ws) (c ∷ d ∷ cs) (h, hs) = (
  w - rune_count c,
  print_row ws (d ∷ cs),
  omega arith,
  omega (
    arith,
    rune_count-append c (blanks (w - rune_count c)),
    rune_count-blanks (w - rune_count c),
  ),
  refl,
  print_row-IsAligned ws (d ∷ cs) hs,
)

pub rows-IsAligned :
    (rows : List (List String))
    → All (λ row. IsAligned (column_widths rows) row (print_row (column_widths rows) row)) rows
rows-IsAligned rows =
    All-weaken rows (λ row h. print_row-IsAligned (column_widths rows) row h) (Fits-columns rows)
