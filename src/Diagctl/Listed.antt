-- ===== src/Diagctl/Listed.antt =====
-- cmd/diagctl/main.go: `list`, from its arguments to its table.
use k8s_health_ai.Prelude.{◌≡◌, ok, List}
use k8s_health_ai.Go.Flag.{Flags}
use k8s_health_ai.Api.{ClusterDiagnosisList}
use k8s_health_ai.Diagctl.Console.{Cluster, Console}
use k8s_health_ai.Diagctl.Arguments.{namespace_of}
use k8s_health_ai.Diagctl.Commands.{list_scope}

module _ {S : Type 0} (cluster : Cluster S) where
  -- The cluster answers the calls of `list` with this list.
  pub record Answers (fs : Flags) (list : ClusterDiagnosisList) (s : S) : Type 0 where
    pub config : (cluster.get_config s).0 ≡ ok tt
    pub client : (cluster.new_client (cluster.get_config s).1).0 ≡ ok tt
    pub items :
        (cluster.list
          (list_scope cluster (namespace_of fs))
          (cluster.new_client (cluster.get_config s).1).1).0
        ≡ ok list
