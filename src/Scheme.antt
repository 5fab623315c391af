-- ===== src/Scheme.antt =====
-- api/v1alpha1/register.go and groupversion_info.go: the group and version of the API, and the
-- registration of its types; the functions init of cmd/manager/main.go and cmd/diagctl/main.go.
pub mod Known
use k8s_health_ai.Prelude.{String, Outcome, ok, err, List, [], ◌∷◌}
use k8s_health_ai.Go.Errors.{Error}
use k8s_health_ai.Action.{Action, always, ◌>>=◌, ◌>>◌}

-- schema.GroupVersion and schema.GroupResource
pub record GroupVersion : Type 0 where
  pub group : String
  pub version : String

pub record GroupResource : Type 0 where
  pub group : String
  pub resource : String

abbrev pub group_name : String
group_name = "health.k8sai.io"

abbrev pub version_name : String
version_name = "v1alpha1"

abbrev pub scheme_group_version : GroupVersion
scheme_group_version = record { group = group_name; version = version_name }

-- the Go types that are handed to AddKnownTypes
pub data Kind : Type 0 where
  cluster_diagnosis cluster_diagnosis_list : Kind

-- The library's scheme, as the state `S`. A panic is an error.
pub record SchemeLibrary (S : Type 0) : Type 0 where
  -- WithResource of a group version, and GroupResource of what it gives
  pub group_resource : GroupVersion → String → GroupResource
  -- AddKnownTypes
  pub add_known_types : GroupVersion → List Kind → Action S (Unit {0})
  -- metav1.AddToGroupVersion
  pub add_to_group_version : GroupVersion → Action S (Unit {0})
  -- AddToScheme of client-go, whose error utilruntime.Must turns into a panic
  pub add_client_go : Action S (Unit {0})

module _ {S : Type 0} (lib : SchemeLibrary S) where
  -- Resource
  unfoldable pub resource : String → GroupResource
  resource name = lib.group_resource scheme_group_version name

  -- addKnownTypes, which returns nil
  unfoldable pub add_known_types : Action S (Unit {0})
  add_known_types =
      lib.add_known_types scheme_group_version (cluster_diagnosis ∷ cluster_diagnosis_list ∷ [])
      >> lib.add_to_group_version scheme_group_version

  -- AddToScheme
  unfoldable pub add_to_scheme : Action S (Unit {0})
  add_to_scheme = add_known_types

  -- init of the two commands, on the scheme of each
  unfoldable pub manager_init : Action S (Unit {0})
  manager_init = lib.add_client_go >> add_to_scheme

  unfoldable pub diagctl_init : Action S (Unit {0})
  diagctl_init = lib.add_client_go >> add_to_scheme
