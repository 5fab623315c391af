-- ===== src/Go/Errors.antt =====
-- Go errors as the source meets them: an error of the API server with its reason, a text made by
-- fmt.Errorf, and one that wraps another by `%w`. The tests of k8s.io/apimachinery/pkg/api/errors
-- look through wrappers to the reason.
use k8s_health_ai.Prelude.{String, Bool, true, false, ◌<>◌}

pub data Reason : Type 0 where
  not_found already_exists conflict timeout other_reason : Reason

pub data Error : Type 0 where
  api_error : Reason → String → Error
  text_error : String → Error
  wrapped : String → Error → Error

unfoldable pub message : Error → String
message (api_error r s) = s
message (text_error s) = s
message (wrapped s e) = s <> ": " <> message e

unfoldable pub reason_for_error : Error → Reason
reason_for_error (api_error r s) = r
reason_for_error (text_error s) = other_reason
reason_for_error (wrapped s e) = reason_for_error e

abbrev is_reason_not_found : Reason → Bool
is_reason_not_found not_found = true
is_reason_not_found _ = false

abbrev is_reason_already_exists : Reason → Bool
is_reason_already_exists already_exists = true
is_reason_already_exists _ = false

abbrev is_reason_transient : Reason → Bool
is_reason_transient conflict = true
is_reason_transient timeout = true
is_reason_transient _ = false

-- apierrors.IsNotFound
unfoldable pub is_not_found : Error → Bool
unfolding reason_for_error
is_not_found e = is_reason_not_found (reason_for_error e)

-- apierrors.IsAlreadyExists
unfoldable pub is_already_exists : Error → Bool
unfolding reason_for_error
is_already_exists e = is_reason_already_exists (reason_for_error e)

-- apierrors.IsConflict(err) || apierrors.IsTimeout(err)
unfoldable pub is_transient : Error → Bool
unfolding reason_for_error
is_transient e = is_reason_transient (reason_for_error e)
