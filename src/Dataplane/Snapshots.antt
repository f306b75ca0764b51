-- ===== src/Dataplane/Snapshots.antt =====
-- The table of clusters after handleClusters.
use clusterlink.Common.{
  ◌≡◌, refl, sym, ◌∙◌, ◌⊎◌, inl, inr, String, Bool, true, false, Option, none, some, List, [], ◌∷◌,
  map, Result, ok, err, str_eq, eq_iff, if◌then◌else◌, arith, Any, string_eq, Bool-cases,
  Option-cases, Result-cases,
}
use clusterlink.Common.Maps.{Map, lookup, insert, lookup-insert, lookup-delete}
use clusterlink.Xds.{Cluster}
use clusterlink.Dataplane.{Dataplane}
use clusterlink.Dataplane.Clusters.{
  add_cluster, remove_cluster, remove_absent, table_names, add_clusters, handle_clusters,
}

-- The messages that are unmarshalled, up to the first that is refused.
unfoldable pub decode_all :
    {Any R : Type 0} → (Any → Result String R) → List Any → Result String (List R)
decode_all unmarshal [] = ok []
decode_all unmarshal (r ∷ rs) =
    let rest = decode_all unmarshal rs in
    elim (unmarshal r) [ err e ↦ err e | ok c ↦ elim rest [ err e ↦ err e | ok cs ↦ ok (c ∷ cs) ] ]

-- The last cluster of this name that was sent.
unfoldable pub latest : String → List Cluster → Option Cluster
latest name [] = none
latest name (c ∷ cs) =
    let later = latest name cs in
    elim later [ some d ↦ some d | none ↦ if str_eq c.name name then some c else none ]

abbrev or_else {ℓ} : {A : Type ℓ} → Option A → Option A → Option A
or_else none y = y
or_else (some x) y = some x

abbrev as_seen : Option Cluster → Option Bool
as_seen none = none
as_seen (some c) = some true

module _ {Certificate Pool : Type 0} where
  abbrev fold_clusters :
      List Cluster
      → Map String Bool
      → Dataplane Certificate Pool
      → Map String Bool × Dataplane Certificate Pool
  fold_clusters [] seen d = (seen, d)
  fold_clusters (c ∷ cs) seen d = fold_clusters cs (insert c.name true seen) (add_cluster c d)

  add_clusters-fold :
      {Any : Type 0} (unmarshal : Any → Result String Cluster) (rs : List Any) (cs : List Cluster)
      (seen : Map String Bool) (d : Dataplane Certificate Pool)
      → decode_all unmarshal rs ≡ ok cs
      → add_clusters unmarshal rs seen d ≡ (
          let out = fold_clusters cs seen d in
          (remove_absent (table_names out.1) out.0 out.1, none))
  unfolding add_clusters decode_all
  add_clusters-fold unmarshal [] cs seen d h = let e : cs ≡ [] = cc in rw e refl
  add_clusters-fold unmarshal (r ∷ rs) cs seen d h = elim (Result-cases (unmarshal r)) [
    | inr (e, q) ↦ absurd (let h' = rw (q, decode_all) at h in cc)
    | inl (c, q) ↦ elim (Result-cases (decode_all unmarshal rs)) [
      | inr (e, q') ↦ absurd (let h' = rw (q, q', decode_all) at h in cc)
      | inl (cs', q') ↦
          let h' : Result.ok (c ∷ cs') ≡ ok cs = rw (q, q', decode_all) at h in
          let e : cs ≡ c ∷ cs' = cc h' in
          rw (q, e, add_clusters)
            (add_clusters-fold unmarshal rs cs' (insert c.name true seen) (add_cluster c d) q')
    ]
  ]

  fold_lem :
      (cs : List Cluster) (seen : Map String Bool) (d : Dataplane Certificate Pool) (n : String)
      → (lookup n (fold_clusters cs seen d).1.clusters
          ≡ or_else (latest n cs) (lookup n d.clusters))
        × (lookup n (fold_clusters cs seen d).0 ≡ or_else (as_seen (latest n cs)) (lookup n seen))
  unfolding latest add_cluster
  fold_lem [] seen d n = (refl, refl)
  fold_lem (c ∷ cs) seen d n =
      let (table, names) = fold_lem cs (insert c.name true seen) (add_cluster c d) n in
      let new_table = lookup-insert c.name n c d.clusters in
      let new_names = lookup-insert c.name n true seen in
      elim (Option-cases (latest n cs)) [
        | inr (x, q) ↦ (table ∙ rw q refl, names ∙ rw q refl)
        | inl q ↦ elim (Bool-cases (str_eq c.name n)) [
          | inl same ↦ (
            table ∙ rw (q, same) (new_table ∙ rw same refl),
            names ∙ rw (q, same) (new_names ∙ rw same refl),
          )
          | inr other ↦ (
            table ∙ rw (q, other) (new_table ∙ rw other refl),
            names ∙ rw (q, other) (new_names ∙ rw other refl),
          )
        ]
      ]

  removed_one :
      (name n : String) (d : Dataplane Certificate Pool)
      → lookup n (remove_cluster name d).clusters
        ≡ (if str_eq name n then none else lookup n d.clusters)
  unfolding remove_cluster
  removed_one name n d = lookup-delete name n d.clusters

  absent_stays :
      (names : List String) (seen : Map String Bool) (d : Dataplane Certificate Pool) (n : String)
      → lookup n d.clusters ≡ none
      → lookup n (remove_absent names seen d).clusters ≡ none
  unfolding remove_absent
  absent_stays [] seen d n h = h
  absent_stays (name ∷ names) seen d n h = elim (Option-cases (lookup name seen)) [
    | inr (b, q) ↦ rw (q, remove_absent) (absent_stays names seen d n h)
    | inl q ↦
        rw (q, remove_absent)
          (absent_stays names seen (remove_cluster name d) n
            (removed_one name n d ∙ ground (arith, h)))
  ]

  unseen_goes :
      (names : List String) (seen : Map String Bool) (d : Dataplane Certificate Pool) (n : String)
      → lookup n seen ≡ none
      → Any (λ (name : String). name ≡ n) names
      → lookup n (remove_absent names seen d).clusters ≡ none
  unfolding remove_absent
  unseen_goes [] seen d n u here = elim here [ ]
  unseen_goes (name ∷ names) seen d n u (inl same) = rw same (
      rw (u, remove_absent)
        (absent_stays names seen (remove_cluster n d) n
          (removed_one n n d ∙ rw ((eq_iff n n).1 refl) refl)))
  unseen_goes (name ∷ names) seen d n u (inr later) = elim (Option-cases (lookup name seen)) [
    | inr (b, q) ↦ rw (q, remove_absent) (unseen_goes names seen d n u later)
    | inl q ↦ rw (q, remove_absent) (unseen_goes names seen (remove_cluster name d) n u later)
  ]

  seen_stays :
      (names : List String) (seen : Map String Bool) (d : Dataplane Certificate Pool) (n : String)
      (b : Bool)
      → lookup n seen ≡ some b
      → lookup n (remove_absent names seen d).clusters ≡ lookup n d.clusters
  unfolding remove_absent
  seen_stays [] seen d n b s = refl
  seen_stays (name ∷ names) seen d n b s = elim (Option-cases (lookup name seen)) [
    | inr (x, q) ↦ rw (q, remove_absent) (seen_stays names seen d n b s)
    | inl q ↦
        rw (q, remove_absent)
          (seen_stays names seen (remove_cluster name d) n b s
            ∙ removed_one name n d
            ∙ rw (different q) refl)
  ]
    where
      different : lookup name seen ≡ none → str_eq name n ≡ false
      different q = elim (Bool-cases (str_eq name n)) [
        | inr d ↦ d
        | inl e ↦ absurd (let f : name ≡ n = (eq_iff name n).0 e in let g = rw f at q in cc (g, s))
      ]

listed :
    (n : String) (m : Map String Cluster)
    → (lookup n m ≡ none)
      ⊎ Any (λ (name : String). name ≡ n) (map (λ (e : String × Cluster). e.0) m)
unfolding lookup
listed n [] = inl refl
listed n ((k, c) ∷ m) = elim (Bool-cases (str_eq k n)) [
  | inl same ↦ inr (inl ((eq_iff k n).0 same))
  | inr other ↦ elim (listed n m) [ inl out ↦ inl (rw other out) | inr later ↦ inr (inr later) ]
]

module _ {Certificate Pool : Type 0} where
  removed_lem :
      (cs : List Cluster) (d : Dataplane Certificate Pool) (n : String)
      → (let out = fold_clusters cs [] d in
          lookup n (remove_absent (table_names out.1) out.0 out.1).clusters ≡ latest n cs)
  unfolding lookup
  removed_lem cs d n =
      let out = fold_clusters cs [] d in
      let (table, names) = fold_lem cs [] d n in
      elim (Option-cases (latest n cs)) [
        | inr (c, q) ↦
            seen_stays (table_names out.1) out.0 out.1 n true (names ∙ rw q refl)
            ∙ table
            ∙ rw q refl
        | inl q ↦ elim (listed n out.1.clusters) [
          | inl out_of_table ↦ absent_stays (table_names out.1) out.0 out.1 n out_of_table ∙ sym q
          | inr in_table ↦
              unseen_goes (table_names out.1) out.0 out.1 n (names ∙ rw q refl) in_table ∙ sym q
        ]
      ]

  -- Where every message can be unmarshalled, handleClusters returns no error, and then the table has,
  -- for each name, the last cluster of this name that was sent, and no other clusters, whatever it had
  -- before.
  pub handle_clusters-latest :
      {Any : Type 0} (unmarshal : Any → Result String Cluster) (rs : List Any) (cs : List Cluster)
      (d : Dataplane Certificate Pool)
      → decode_all unmarshal rs ≡ ok cs
      → ((handle_clusters unmarshal rs d).1 ≡ none)
        × ((n : String) → lookup n (handle_clusters unmarshal rs d).0.clusters ≡ latest n cs)
  unfolding handle_clusters
  handle_clusters-latest unmarshal rs cs d h =
      rw (add_clusters-fold unmarshal rs cs [] d h) (refl, removed_lem cs d)
