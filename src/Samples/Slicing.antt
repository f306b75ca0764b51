-- ===== src/Samples/Slicing.antt =====
-- Endpoint slices and conditions that are compared.
use clusterlink.Common.{◌≡◌, refl, String, Bool, true, false, none, some, [], ◌∷◌}
use clusterlink.Common.Maps.{Map}
use clusterlink.Crds.Peers.{Condition}
use clusterlink.Slices.{
  EndpointSlice, endpoint_slice_changed, endpoints_differ, endpoint_differs, addresses_differ,
  bool_pointer_changed,
}

abbrev slice : EndpointSlice
slice = record {
  object = record { namespace = "default"; name = "slice" };
  ports = [];
  address_type = "IPv4";
  labels = [];
  endpoints =
      record {
        addresses = "10.0.0.1" ∷ [];
        ready = some true;
        serving = none;
        terminating = some false;
      }
      ∷ [];
}

abbrev all_same : Map String String → Map String String → Bool
all_same a b = true

unchanged : endpoint_slice_changed all_same slice slice ≡ false
unfolding endpoint_slice_changed endpoints_differ endpoint_differs addresses_differ
    bool_pointer_changed
unchanged = refl

abbrev valid : String → Condition
valid reason = record {
  kind = "ExportValid";
  status = "True";
  reason = reason;
  message = "";
  observed_generation = 0;
  last_transition_time = "";
}
