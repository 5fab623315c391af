-- ===== src/Diagctl/Listing/Table.antt =====
-- cmd/diagctl/main.go: the table that `list` prints.
use k8s_health_ai.Prelude.{
  ℕ, String, ◌≡◌, refl, Option, none, some, Outcome, ok, List, [], ◌∷◌, All, ◌<>◌, arith,
}
use k8s_health_ai.Go.Errors.{Error}
use k8s_health_ai.Go.Tabwriter.{column_widths, print_row, print_table}
use k8s_health_ai.Go.Tabwriter.Laws.{IsAligned, rows-IsAligned}
use k8s_health_ai.Api.{ClusterDiagnosis}
use k8s_health_ai.Diagctl.Console.{Cluster, Console}
use k8s_health_ai.Diagctl.Listing.{
  age_string, item_age, table_header, table_row, table_rows, print_list_text,
}

-- The rows show the items one by one: namespace, name, phase, failure type, pod, and the age at
-- some instant.
abbrev pub ShowsItems : List ClusterDiagnosis → List (List String) → Type 0
ShowsItems [] [] = Unit
ShowsItems [] (row ∷ rows) = ⊥
ShowsItems (item ∷ items) [] = ⊥
ShowsItems (item ∷ items) (row ∷ rows) =
    ((now : ℕ) × (row
        ≡ item.metadata.namespace
          ∷ item.metadata.name
          ∷ item.status.phase
          ∷ item.spec.failure_type
          ∷ item.spec.target_ref.name
          ∷ age_string now item.metadata.creation_timestamp
          ∷ []))
    × ShowsItems items rows

module _ {S : Type 0} (cluster : Cluster S) where
  abbrev Answered :
      List ClusterDiagnosis → Console S → Outcome Error (List (List String)) × Console S → Type 0
  Answered items c (r, c') =
      (rows : List (List String)) × (r ≡ ok rows) × ShowsItems items rows × (c'.stdout ≡ c.stdout)

  item_age-ok :
      (t : Option ℕ) (c : Console S)
      → (now : ℕ) × ((item_age cluster t c).0 ≡ ok (age_string now t))
        × ((item_age cluster t c).1.stdout ≡ c.stdout)
  unfolding item_age
  item_age-ok none c = (0, refl, refl)
  item_age-ok (some t) c = (_, refl, refl)

  table_rows-Answered :
      (items : List ClusterDiagnosis) (c : Console S)
      → Answered items c (table_rows cluster items c)
  unfolding table_rows table_row
  table_rows-Answered [] c = ([], refl, tt, refl)
  table_rows-Answered (item ∷ items) c =
      let c1 = (item_age cluster item.metadata.creation_timestamp c).1 in
      let (now, e, same) = item_age-ok item.metadata.creation_timestamp c in
      let (rows, e', shows, same') = table_rows-Answered items c1 in
      (
        table_row item (age_string now item.metadata.creation_timestamp) ∷ rows,
        ground (arith, e, e'),
        ((now, refl), shows),
        ground (arith, e, e', same, same'),
      )

  -- The table, as it was printed.
  pub record Printed (items : List ClusterDiagnosis) (before after : String) : Type 0 where
    pub rows : List (List String)
    pub header : table_header ≡ "NAMESPACE" ∷ "NAME" ∷ "PHASE" ∷ "FAILURE" ∷ "POD" ∷ "AGE" ∷ []
    pub shows : ShowsItems items rows
    pub written : after ≡ before <> print_table (table_header ∷ rows)
    pub aligned :
        All
          (λ row.
            IsAligned
              (column_widths (table_header ∷ rows))
              row
              (print_row (column_widths (table_header ∷ rows)) row))
          (table_header ∷ rows)

  -- printListText writes a line for the header and one for each item, in their order, with its age
  -- by ageString at some instant, and the cells of all lines stand in the same columns, with two
  -- blanks or more between them.
  pub print_list_text-Printed :
      (items : List ClusterDiagnosis) (c : Console S)
      → Printed items c.stdout (print_list_text cluster items c).1.stdout
  unfolding print_list_text table_header
  print_list_text-Printed items c =
      let (rows, e, shows, same) = table_rows-Answered items c in
      record {
        rows = rows;
        header = refl;
        shows = shows;
        written = ground (arith, e, same);
        aligned = rows-IsAligned (table_header ∷ rows);
      }
