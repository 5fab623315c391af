-- ===== src/Diagctl/Deletes.antt =====
-- cmd/diagctl/main.go: what the commands delete.
pub mod Confirmed
use k8s_health_ai.Prelude.{String, ◌≡◌, refl, ◌∙◌, List, [], ◌∷◌}
use k8s_health_ai.Api.{ClusterDiagnosis}
use k8s_health_ai.Diagctl.Console.{Cluster, Console, Request, listed, fetched, deleted}
use k8s_health_ai.Diagctl.Commands.{run_list, run_get, run_explain}
use k8s_health_ai.Diagctl.Steps.{IsStep}
use k8s_health_ai.Diagctl.Steps.Whole.{run_list-Follows, run_get-Follows, run_explain-Follows}

-- the diagnoses that the requests delete, the latest first
abbrev pub deletions : List Request → List ClusterDiagnosis
deletions [] = []
deletions (listed scope ∷ rs) = deletions rs
deletions (fetched key ∷ rs) = deletions rs
deletions (deleted cd ∷ rs) = cd ∷ deletions rs

module _ {S : Type 0} where
  abbrev pub deleted_by : Console S → List ClusterDiagnosis
  deleted_by c = deletions c.requests

  -- the same diagnoses are deleted
  abbrev pub Spares : Console S → Console S → Type 0
  Spares before after = deleted_by after ≡ deleted_by before

  instance pub Spares-IsStep : IsStep Spares
  Spares-IsStep = record {
    same = λ c. refl;
    joins = λ a b c h k. k ∙ h;
    moves = λ c s. refl;
    prints = λ c t. refl;
    complains = λ c t. refl;
    lists = λ c s scope. refl;
    gets = λ c s key. refl;
  }

module _ {S : Type 0} (cluster : Cluster S) where
  -- `list`, `get` and `explain` delete nothing, whatever their arguments and the cluster's answers are.
  pub readers_delete_nothing :
      (args : List String) (c : Console S)
      → (deleted_by (run_list cluster args c).1 ≡ deleted_by c)
        × (deleted_by (run_get cluster args c).1 ≡ deleted_by c)
        × (deleted_by (run_explain cluster args c).1 ≡ deleted_by c)
  readers_delete_nothing args c = (
    (run_list-Follows {R = Spares} cluster args).kept c,
    (run_get-Follows {R = Spares} cluster args).kept c,
    (run_explain-Follows {R = Spares} cluster args).kept c,
  )
