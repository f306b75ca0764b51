-- ===== src/Samples/Cluster.antt =====
-- A cluster's store with tables of services, imports, exports, endpoint slices and secrets, and a
-- control manager on it.
mod Handlers
use clusterlink.Common.{
  ℕ, ◌≡◌, ◌≢◌, refl, String, Bool, true, false, Option, none, some, List, [], ◌∷◌, Result, ok, err,
  if◌then◌else◌, str_eq, Bool-cases,
}
use clusterlink.Common.Maps.{Map, lookup, insert, delete, lookup-insert, lookup-insert_self}
use clusterlink.Crds.Names.{NamespacedName, same_name_iff, name_eq}
use clusterlink.Crds.Peers.{Condition, Export}
use clusterlink.Crds.Imports.{Import}
use clusterlink.Kube.{ApiError, not_found, Objects}
use clusterlink.Services.{Service}
use clusterlink.Slices.{EndpointSlice}
use clusterlink.Ports.{new_port_manager}
use clusterlink.Control.{Secret, Setup, ControlState, ControlError}

pub record Db : Type 0 where
  pub services : Map NamespacedName Service
  pub imports : Map NamespacedName Import
  pub exports : Map NamespacedName Export
  pub slices : Map NamespacedName EndpointSlice
  pub secrets : Map NamespacedName Secret

abbrev pub found : {A : Type 0} → Option A → Result ApiError A
found none = err not_found
found (some a) = ok a

abbrev pub selected : {A : Type 0} → (A → Bool) → Map NamespacedName A → List A
selected p [] = []
selected p ((k, a) ∷ rest) = let others = selected p rest in if p a then a ∷ others else others

-- A write of an object that has to be there.
abbrev pub replaced : {A : Type 0} → (A → Db → Db) → A → Db → Option A → Db × Option ApiError
replaced set a db none = (db, some not_found)
replaced set a db (some old) = (set a db, none)

abbrev pub table :
    {A : Type 0}
    → (Db → Map NamespacedName A)
    → (Map NamespacedName A → Db → Db)
    → (A → NamespacedName)
    → Objects Db A
table rows with_rows name = record {
  get = λ k db. found (lookup k (rows db));
  list = λ p db. ok (selected p (rows db));
  create = λ a db. (with_rows (insert (name a) a (rows db)) db, none);
  update = λ a db.
      replaced (λ a db. with_rows (insert (name a) a (rows db)) db) a db
        (lookup (name a) (rows db));
  update_status = λ a db. (with_rows (insert (name a) a (rows db)) db, none);
  remove = λ k db. (with_rows (delete k (rows db)) db, none);
}

abbrev pub find : List Condition → String → Option Condition
find [] kind = none
find (c ∷ rest) kind = let later = find rest kind in if str_eq c.kind kind then some c else later

abbrev pub setup : Setup Db
setup = record {
  services = table (λ db. db.services) (λ rows db. record db { services = rows }) (λ s. s.object);
  imports = table (λ db. db.imports) (λ rows db. record db { imports = rows }) (λ i. i.object);
  exports = table (λ db. db.exports) (λ rows db. record db { exports = rows }) (λ e. e.object);
  slices = table (λ db. db.slices) (λ rows db. record db { slices = rows }) (λ s. s.object);
  secrets = table (λ db. db.secrets) (λ rows db. record db { secrets = rows }) (λ s. s.object);
  namespace = "system";
  find_status_condition = find;
  set_status_condition = λ conditions c. c ∷ conditions;
  same_labels = λ a b. true;
  shorten_string = λ s n. s;
  md5_hex = λ s. "0123";
  message = λ e. "error";
}

abbrev pub manager : Db → ControlState Db
manager db = record {
  services = record { store = db; service_to_import = [] };
  ports = new_port_manager;
}
