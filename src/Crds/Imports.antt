-- ===== src/Crds/Imports.antt =====
-- pkg/apis/clusterlink.net/v1alpha1/import.go
use clusterlink.Common.{ℕ, String, List}
use clusterlink.Common.Maps.{Map}
use clusterlink.Crds.Names.{NamespacedName}
use clusterlink.Crds.Peers.{Condition}

pub record ImportSource : Type 0 where
  pub peer : String
  pub export_name : String
  pub export_namespace : String

pub record ImportSpec : Type 0 where
  pub port : ℕ
  pub target_port : ℕ
  pub sources : List ImportSource
  pub lb_scheme : String

-- The object's name and namespace, its labels, its spec and the conditions of its status.
pub record Import : Type 0 where
  pub object : NamespacedName
  pub labels : Map String String
  pub spec : ImportSpec
  pub open spec use *
  pub conditions : List Condition

abbrev pub lb_scheme_random : String
lb_scheme_random = "random"

abbrev pub lb_scheme_round_robin : String
lb_scheme_round_robin = "round-robin"

abbrev pub lb_scheme_static : String
lb_scheme_static = "static"

abbrev pub lb_scheme_default : String
lb_scheme_default = lb_scheme_round_robin

abbrev pub import_target_port_valid : String
import_target_port_valid = "ImportTargetPortValid"

abbrev pub import_service_valid : String
import_service_valid = "ImportServiceValid"

abbrev pub label_import_merge : String
label_import_merge = "import.clusterlink.net/merge"
