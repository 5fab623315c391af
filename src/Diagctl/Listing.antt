-- ===== src/Diagctl/Listing.antt =====
-- cmd/diagctl/main.go: the order and the table of `list`.
pub mod Order
pub mod Age
pub mod Table
use k8s_health_ai.Prelude.{
  ℕ, ◌+◌, String, Bool, true, false, ◌&&◌, not, Option, none, some, Outcome, ok, err, List, [], ◌∷◌,
  ◌==◌, leb, ◌<>◌, if◌then◌else◌,
}
use k8s_health_ai.Prelude.Int.{ℤ, pos, negsuc}
use k8s_health_ai.Go.Strings.{str_lt, has_suffix, trim_suffix}
use k8s_health_ai.Go.Time.{minute, round_second, duration_string}
use k8s_health_ai.Go.Tabwriter.{print_table}
use k8s_health_ai.Action.{pure, always, ◌>>=◌, ◌>>◌}
use k8s_health_ai.Api.{ClusterDiagnosis}
use k8s_health_ai.Controller.Rate.{since}
use k8s_health_ai.Diagctl.Console.{Cluster, Console, Run, print_out}

-- the order that runList hands to sort.Slice
unfoldable pub in_front : ClusterDiagnosis → ClusterDiagnosis → Bool
unfolding str_lt
in_front a b =
    if not (a.metadata.namespace == b.metadata.namespace)
    then str_lt a.metadata.namespace b.metadata.namespace
    else str_lt a.metadata.name b.metadata.name

-- `if d < 0 { d = 0 }`
abbrev pub non_negative : ℤ → ℕ
non_negative (pos n) = n
non_negative (negsuc n) = 0

-- the text of an age of `d` nanoseconds
unfoldable pub age_text : ℕ → String
unfolding round_second duration_string has_suffix trim_suffix
age_text d =
    let s = duration_string (round_second d) in
    (if has_suffix s "0s" && leb minute d then trim_suffix s "0s" else s) <> " ago"

-- ageString at the instant `now`; a zero time is `none`
unfoldable pub age_string : ℕ → Option ℕ → String
unfolding age_text since
age_string now none = "<unknown>"
age_string now (some t) = age_text (non_negative (since now t))

unfoldable pub table_header : List String
table_header = "NAMESPACE" ∷ "NAME" ∷ "PHASE" ∷ "FAILURE" ∷ "POD" ∷ "AGE" ∷ []

unfoldable pub table_row : ClusterDiagnosis → String → List String
table_row item age =
    item.metadata.namespace ∷ item.metadata.name ∷ item.status.phase ∷ item.spec.failure_type
    ∷ item.spec.target_ref.name ∷ age ∷ []

module _ {S : Type 0} (cluster : Cluster S) where
  -- the clock is read for an item that has a time of creation
  unfoldable pub item_age : Option ℕ → Run S String
  unfolding age_string
  item_age none c = (ok (age_string 0 none), c)
  item_age (some t) c =
      let (now, s) = cluster.now c.state in (ok (age_string now (some t)), record c { state = s })

  -- the loop over the items
  unfoldable pub table_rows : List ClusterDiagnosis → Run S (List (List String))
  unfolding item_age table_row
  table_rows [] = pure []
  table_rows (item ∷ items) = do
    age ← item_age item.metadata.creation_timestamp
    rows ← table_rows items
    pure (table_row item age ∷ rows)

  -- printListText
  unfoldable pub print_list_text : List ClusterDiagnosis → Run S (Unit {0})
  unfolding table_rows table_header print_table
  print_list_text items = do rows ← table_rows items; print_out (print_table (table_header ∷ rows))
