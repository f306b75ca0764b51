-- ===== src/Control/Copies.antt =====
-- Merge imports have a copy of every dataplane endpoint slice.
use clusterlink.Common.{◌≡◌, ◌≢◌, ◌⊎◌, String, true, none, List, [], ◌∷◌, ok, All, false}
use clusterlink.Common.Maps.{Map}
use clusterlink.Crds.Names.{NamespacedName}
use clusterlink.Crds.Imports.{Import}
use clusterlink.Kube.{Objects}
use clusterlink.Slices.{EndpointSlice, endpoint_slice_changed}
use clusterlink.Control.{Setup, ControlState, End, store, for_each}
use clusterlink.Control.Names.{slice_name}
use clusterlink.Control.EndpointSlices.{import_endpoint_slice, check_import_endpoint_slice}

-- The API server's documented behaviour: a write that succeeds sets the object of its name, and no
-- other.
pub record SetsOne {S : Type 0} (client : Objects S EndpointSlice) : Type 0 where
  pub set_created :
      (s : EndpointSlice) (st : S)
      → (client.create s st).1 ≡ none
      → client.get s.object (client.create s st).0 ≡ ok s
  pub set_updated :
      (s : EndpointSlice) (st : S)
      → (client.update s st).1 ≡ none
      → client.get s.object (client.update s st).0 ≡ ok s
  pub keep_created :
      (s : EndpointSlice) (st : S) (k : NamespacedName)
      → (client.create s st).1 ≡ none
      → s.object ≢ k
      → client.get k (client.create s st).0 ≡ client.get k st
  pub keep_updated :
      (s : EndpointSlice) (st : S) (k : NamespacedName)
      → (client.update s st).1 ≡ none
      → s.object ≢ k
      → client.get k (client.update s st).0 ≡ client.get k st

-- No two endpoint slices with one name.
abbrev pub HasDistinctNames : List EndpointSlice → Type 0
HasDistinctNames [] = Unit
HasDistinctNames (x ∷ xs) =
    All (λ (y : EndpointSlice). y.object.name ≢ x.object.name) xs × HasDistinctNames xs

abbrev pub IsNamed : EndpointSlice → Type 0
IsNamed s = s.object.name ≢ ""

module _ {S : Type 0} (w : Setup S) (imp : Import) where
  -- The store has the import's slice for a dataplane slice: with its endpoints, and with the labels that
  -- mark it. The port is the target port of the import, unless the slice is the one of before, whose
  -- ports are not looked at.
  abbrev pub HasCopy : S → S → EndpointSlice → Type 0
  HasCopy before after dataplane =
      let name : NamespacedName = record {
        namespace = imp.object.namespace;
        name = slice_name imp.object.name dataplane.object.name;
      } in
      let labels : Map String String =
        ("kubernetes.io/service-name", imp.object.name)
        ∷ ("endpointslice.kubernetes.io/managed-by", "clusterlink.net")
        ∷ ("clusterlink.net/dataplane-endpointslice-name", dataplane.object.name)
        ∷ [] in
      (s : EndpointSlice) × (w.slices.get name after ≡ ok s)
      × (s.address_type ≡ "IPv4")
      × (w.same_labels labels s.labels ≡ true)
      × (s.endpoints ≡ dataplane.endpoints)
      × ((s.ports ≡ record { port = imp.spec.target_port; protocol = "TCP" } ∷ [])
          ⊎ (w.slices.get name before ≡ ok s))

  -- The slice in the store is the wanted one, or was there and did not count as changed.
  abbrev IsPut : EndpointSlice → S → EndpointSlice → Type 0
  IsPut wanted before s =
      (s ≡ wanted)
      ⊎ ((w.slices.get wanted.object before ≡ ok s)
          × (endpoint_slice_changed w.same_labels wanted s ≡ false))

  -- What a write of a slice does where it succeeds.
  abbrev IsStored : EndpointSlice → ControlState S → End S → Type 0
  IsStored wanted m end =
      ((s : EndpointSlice) × (w.slices.get wanted.object (store end.0) ≡ ok s)
        × IsPut wanted (store m) s)
      × ((k : NamespacedName)
          → wanted.object ≢ k
          → w.slices.get k (store end.0) ≡ w.slices.get k (store m))

  abbrev wanted_object : EndpointSlice → NamespacedName
  wanted_object dataplane = (import_endpoint_slice imp dataplane).object

  -- What the loop does where it succeeds, on slices whose copies have different names.
  abbrev AreApart : List EndpointSlice → Type 0
  AreApart [] = Unit
  AreApart (x ∷ xs) = All (λ y. wanted_object y ≢ wanted_object x) xs × AreApart xs

  module _ (law : SetsOne w.slices)
      (same : (labels : Map String String) → w.same_labels labels labels ≡ true) where
    -- The slice of one dataplane slice after the loop.
    abbrev IsCopied : S → S → EndpointSlice → Type 0
    IsCopied before after x =
        (s : EndpointSlice) × (w.slices.get (wanted_object x) after ≡ ok s)
        × IsPut (import_endpoint_slice imp x) before s

    -- What the loop leaves: copies of the slices, and all else as it was.
    abbrev AreCopied : List EndpointSlice → ControlState S → End S → Type 0
    AreCopied xs m end =
        All (IsCopied (store m) (store end.0)) xs
        × ((k : NamespacedName)
            → All (λ y. wanted_object y ≢ k) xs
            → w.slices.get k (store end.0) ≡ w.slices.get k (store m))

    abbrev loop : List EndpointSlice → ControlState S → End S
    loop = for_each (check_import_endpoint_slice w imp)
