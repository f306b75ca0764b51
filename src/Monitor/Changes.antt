-- ===== src/Monitor/Changes.antt =====
-- When `peerChanged` says that a peer did not change.
use clusterlink.Common.{
  ◌≡◌, ◌↔◌, refl, ap₂, String, true, false, List, [], ◌∷◌, arith, eq_iff, length, All,
}
use clusterlink.Common.Maps.{Map}
use clusterlink.Crds.Peers.{Peer, Endpoint, Condition}
use clusterlink.Monitor.{
  gateways_differ, same_condition, conditions_differ, label_of, labels_differ, peer_changed,
}

same_condition_iff : (a b : Condition) → (same_condition a b ≡ true) ↔ (a ≡ b)
same_condition_iff a b = ground (
  arith,
  eq_iff a.kind b.kind,
  eq_iff a.status b.status,
  eq_iff a.reason b.reason,
  eq_iff a.message b.message,
  eq_iff a.last_transition_time b.last_transition_time,
)

gateways_lem :
    (xs ys : List Endpoint) → length xs ≡ length ys → gateways_differ xs ys ≡ false → xs ≡ ys
unfolding gateways_differ
gateways_lem [] [] l h = refl
gateways_lem [] (y ∷ ys) l h = absurd (omega (arith, l))
gateways_lem (x ∷ xs) [] l h = absurd (omega (arith, l))
gateways_lem (x ∷ xs) (y ∷ ys) l h =
    ap₂ (λ (z : Endpoint) (zs : List Endpoint). z ∷ zs) (ground (arith, eq_iff x.host y.host))
      (gateways_lem xs ys (omega arith) (ground arith))

conditions_lem :
    (xs ys : List Condition) → length xs ≡ length ys → conditions_differ xs ys ≡ false → xs ≡ ys
unfolding conditions_differ
conditions_lem [] [] l h = refl
conditions_lem [] (y ∷ ys) l h = absurd (omega (arith, l))
conditions_lem (x ∷ xs) [] l h = absurd (omega (arith, l))
conditions_lem (x ∷ xs) (y ∷ ys) l h =
    ap₂ (λ (z : Condition) (zs : List Condition). z ∷ zs)
      ((same_condition_iff x y).0 (ground arith))
      (conditions_lem xs ys (omega arith) (ground arith))

-- Each label of the first map reads the same in the second, where a missing one reads empty.
abbrev pub ReadSame : Map String String → Map String String → Type 0
ReadSame labels other = All (λ (e : String × String). label_of e.0 other ≡ e.1) labels

labels_lem :
    (labels other : Map String String) → labels_differ labels other ≡ false → ReadSame labels other
unfolding labels_differ
labels_lem [] other h = tt
labels_lem ((key, val) ∷ rest) other h =
    (ground (arith, eq_iff val (label_of key other)), labels_lem rest other (ground arith))

-- A peer that did not change has the same gateways and conditions, as many labels, and each label
-- of the first reads the same in the second.
pub peer_changed-false :
    (a b : Peer)
    → peer_changed a b ≡ false
    → (a.gateways ≡ b.gateways)
      × (a.conditions ≡ b.conditions)
      × (length a.labels ≡ length b.labels)
      × ReadSame a.labels b.labels
unfolding peer_changed
peer_changed-false a b h = (
  gateways_lem a.gateways b.gateways (ground arith) (ground arith),
  conditions_lem a.conditions b.conditions (ground arith) (ground arith),
  ground arith,
  labels_lem a.labels b.labels (ground arith),
)
