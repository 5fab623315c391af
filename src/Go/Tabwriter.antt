-- ===== src/Go/Tabwriter.antt =====
-- Go's package `text/tabwriter` with padding 2, blanks and no flags, on rows with one number of
-- cells, none of which holds a tab, a line feed, a form feed or a vertical tab.
pub mod Laws
use Prim.Native.String.{◌∷◌}
use mathlib.Core.List
use k8s_health_ai.Prelude.{
  ℕ, zero, suc, ◌+◌, ◌-◌, String, Bool, List, ltb, ◌<>◌, if◌then◌else◌, map,
}
use k8s_health_ai.Go.Strings.{rune_count}

-- the widths that a row needs: a tab ends each cell but the last
unfoldable pub cell_widths : List String → List ℕ
unfolding rune_count
cell_widths List.[] = List.[]
cell_widths (List.◌∷◌ c List.[]) = List.[]
cell_widths (List.◌∷◌ c (List.◌∷◌ d cs)) = List.◌∷◌ (rune_count c + 2) (cell_widths (List.◌∷◌ d cs))

unfoldable pub widest : List ℕ → List ℕ → List ℕ
widest List.[] vs = vs
widest (List.◌∷◌ w ws) List.[] = List.◌∷◌ w ws
widest (List.◌∷◌ w ws) (List.◌∷◌ v vs) = List.◌∷◌ (if ltb w v then v else w) (widest ws vs)

unfoldable pub column_widths : List (List String) → List ℕ
unfolding cell_widths widest
column_widths List.[] = List.[]
column_widths (List.◌∷◌ row rows) = widest (cell_widths row) (column_widths rows)

unfoldable pub blanks : ℕ → String
blanks zero = ""
blanks (suc n) = " " ∷ blanks n

unfoldable pub pad : ℕ → String → String
unfolding blanks rune_count
pad w c = c <> blanks (w - rune_count c)

unfoldable pub print_row : List ℕ → List String → String
unfolding pad
print_row ws List.[] = ""
print_row ws (List.◌∷◌ c List.[]) = c
print_row List.[] (List.◌∷◌ c (List.◌∷◌ d cs)) = c <> print_row List.[] (List.◌∷◌ d cs)
print_row (List.◌∷◌ w ws) (List.◌∷◌ c (List.◌∷◌ d cs)) = pad w c <> print_row ws (List.◌∷◌ d cs)

unfoldable pub print_rows : List ℕ → List (List String) → String
unfolding print_row
print_rows ws List.[] = ""
print_rows ws (List.◌∷◌ row rows) = print_row ws row <> "\n" <> print_rows ws rows

-- what Flush writes
unfoldable pub print_table : List (List String) → String
unfolding column_widths print_rows
print_table rows = print_rows (column_widths rows) rows
