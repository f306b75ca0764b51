-- ===== src/Authz/Ingress/Lookups.antt =====
-- What the answer of the API server does to an ingress request.
use clusterlink.Common.{
  ◌≡◌, refl, String, false, not, List, [], Result, ok, err, ℕ, if◌then◌else◌, ◌||◌,
}
use clusterlink.Crds.Names.{NamespacedName}
use clusterlink.Crds.Policies.{AsSelector}
use clusterlink.Crds.Peers.{Export, Condition, export_valid}
use clusterlink.Kube.{ApiError, is_not_found, not_found, already_exists, api_failed}
use clusterlink.Authz.Egress.{IsConditionTrue}
use clusterlink.Authz.Ingress.{
  Jwt, IngressSelf, IngressRequest, cannot_get_export, no_service, authorize_export,
  authorize_ingress,
}

module _ {Key Token R : Type 0} (jwt : Jwt Key Token) (as_selector : AsSelector R)
    (name_string : NamespacedName → String) (is_condition_true : IsConditionTrue)
    (m : IngressSelf R Key) (now : ℕ) (req : IngressRequest) where
  all_missing :
      (e : ApiError)
      → is_condition_true [] export_valid ≡ false
      → (if is_not_found e || not (is_condition_true [] export_valid)
          then ok no_service
          else err (cannot_get_export e))
        ≡ ok no_service
  all_missing not_found never = refl
  all_missing already_exists never = rw never refl
  all_missing (api_failed x) never = rw never refl

  authorize_export_conditions :
      (export : Export) (conditions : List Condition)
      → authorize_export jwt as_selector name_string is_condition_true m now req export
        ≡ authorize_export jwt as_selector name_string is_condition_true m now req
            (record export { conditions = conditions })
  unfolding authorize_export
  authorize_export_conditions export conditions = refl

  -- The conditions of an export that was read do not matter: one that is marked as not valid is
  -- answered as if it were valid.
  pub authorize_ingress_conditions :
      (get_export other : NamespacedName → Result ApiError Export) (export : Export)
      (conditions : List Condition)
      → get_export req.service_name ≡ ok export
      → other req.service_name ≡ ok (record export { conditions = conditions })
      → authorize_ingress jwt as_selector name_string is_condition_true m now req get_export
        ≡ authorize_ingress jwt as_selector name_string is_condition_true m now req other
  unfolding authorize_ingress
  authorize_ingress_conditions get_export other export conditions e f =
      rw (e, f, authorize_ingress) (authorize_export_conditions export conditions)

  -- As no condition is true of an export without conditions, every error of the Get, also one that
  -- does not say that the export is missing, is answered as a missing service.
  pub authorize_ingress_missing :
      (get_export : NamespacedName → Result ApiError Export) (e : ApiError)
      → is_condition_true [] export_valid ≡ false
      → get_export req.service_name ≡ err e
      → authorize_ingress jwt as_selector name_string is_condition_true m now req get_export
        ≡ ok no_service
  unfolding authorize_ingress
  authorize_ingress_missing get_export e never f = rw (f, authorize_ingress) (all_missing e never)
