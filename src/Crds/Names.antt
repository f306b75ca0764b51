-- ===== src/Crds/Names.antt =====
-- `types.NamespacedName`, the key of most maps of the control plane.
use clusterlink.Common.{String, ◌≡◌, Bool, true, ◌&&◌, ◌↔◌, arith, str_eq, eq_iff, MapKey}

pub record NamespacedName : Type 0 where
  pub namespace : String
  pub name : String

abbrev pub same_name : NamespacedName → NamespacedName → Bool
same_name a b = str_eq a.namespace b.namespace && str_eq a.name b.name

pub same_name_iff : (a b : NamespacedName) → (same_name a b ≡ true) ↔ (a ≡ b)
same_name_iff a b = ground (arith, eq_iff a.namespace b.namespace, eq_iff a.name b.name)

instance abbrev pub name_eq : MapKey NamespacedName
name_eq = record { same_key = same_name; same_key_iff = same_name_iff }
