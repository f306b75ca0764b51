-- ===== src/Balancer/Attempts.antt =====
-- `Select` as a whole: first every source once, then the delayed ones, then an error.
use clusterlink.Common.{
  ℕ, ◌+◌, ◌-◌, ◌*◌, ◌≤◌, ◌<◌, ◌≡◌, ◌∙◌, ap, subst, inl, inr, Option, none, some, List, [], ◌∷◌,
  ◌++◌, arith, length, length-append, All, ℕ_eq,
}
use clusterlink.Common.Maps.{lookup}
use clusterlink.Common.Pigeonhole.{length-insert_new, length-insert_present, full_has}
use clusterlink.Balancer.Select.{
  LoadBalancer, LoadBalancingResult, tried_out_all, source_count, marked, mark_failed,
  select_by_scheme, select_delayed, select, delay,
}
use clusterlink.Balancer.Progress.{
  IsKnown, IsIndex, tried, Trail, IsProper, tried-IsDistinct, tried-Below, next,
}
use clusterlink.Balancer.Schemes.{scheme_picks}

-- What is left to do for a request: two visits at most for each source that was not tried, and
-- one for each that is delayed.
abbrev pub left : LoadBalancingResult → ℕ
left r = 2 * (source_count r - length (tried r)) + length r.delayed

module _ (draw : ℕ) (lb : LoadBalancer) (r : LoadBalancingResult) (v : IsProper r) where
  select_marked :
      length (tried r) < source_count r
      → ((select draw lb r).1 ≡ (select_by_scheme draw lb (mark_failed r)).1)
        × ((select draw lb r).2 ≡ none)
  unfolding select mark_failed
  select_marked room = ground arith

  next-IsProper :
      (i : ℕ)
      → i < source_count r
      → lookup i (tried r) ≡ none
      → Trail (next r i)
      → IsProper (next r i)
  next-IsProper i lt out t = record {
    distinct = tried-IsDistinct r v;
    below = tried-Below r v;
    current_in = inr lt;
    delayed_in = v.delayed_in;
    trail = t;
  }

  -- While some source was not tried, `Select` succeeds with one: all that was chosen before is
  -- marked, the new index was not chosen before, and what is left falls by two.
  pub select_new :
      IsKnown r.imp
      → draw < source_count r
      → length (tried r) < source_count r
      → (i : ℕ) × ((select draw lb r).1 ≡ next r i)
        × ((select draw lb r).2 ≡ none)
        × (i < source_count r)
        × (lookup i (tried r) ≡ none)
        × IsProper (next r i)
        × (left (next r i) + 2 ≤ left r)
  select_new known draw_in room =
      let (i, e, lt, out, t) = scheme_picks draw lb r v draw_in room known in
      let (same, fine) = select_marked room in
      (
        i,
        same ∙ e,
        fine,
        lt,
        out,
        next-IsProper i lt out t,
        omega (arith, length-insert_new i tt (tried r) out),
      )

  -- When all were tried and none is delayed, it fails.
  pub select_exhausted :
      length (tried r) ≡ source_count r
      → r.delayed ≡ []
      → (select draw lb r).2 ≡ some (tried_out_all (source_count r))
  unfolding select mark_failed select_delayed
  select_exhausted full empty = ground arith

  select_delayed_lem :
      (o : Option ℕ) (rest : List (Option ℕ))
      → length (tried r) ≡ source_count r
      → r.delayed ≡ o ∷ rest
      → ((select draw lb r).1 ≡ record r { failed = tried r; current_index = o; delayed = rest })
        × ((select draw lb r).2 ≡ none)
  unfolding select mark_failed select_delayed
  select_delayed_lem o rest full d = ground arith

  full_marked :
      (o : Option ℕ)
      → IsIndex (source_count r) o
      → length (tried r) ≡ source_count r
      → length (marked o (tried r)) ≡ source_count r
  full_marked none h full = absurd h
  full_marked (some i) h full =
      let (w, found) =
        full_has (source_count r) i (tried r) (tried-IsDistinct r v) (tried-Below r v) full h in
      length-insert_present i tt w (tried r) (tried-IsDistinct r v) found ∙ full

  -- When all were tried, the first delayed one is chosen again, and what is left falls by one.
  pub select_retry :
      (o : Option ℕ) (rest : List (Option ℕ))
      → length (tried r) ≡ source_count r
      → r.delayed ≡ o ∷ rest
      → let r' : LoadBalancingResult = record r {
        failed = tried r;
        current_index = o;
        delayed = rest;
      } in
        ((select draw lb r).1 ≡ r')
        × ((select draw lb r).2 ≡ none)
        × IsIndex (source_count r) o
        × IsProper r'
        × (left r' + 1 ≤ left r)
  select_retry o rest full d =
      let bounds : All (IsIndex (source_count r)) (o ∷ rest) =
        subst (All (IsIndex (source_count r))) d v.delayed_in in
      let (same, fine) = select_delayed_lem o rest full d in
      let still : length (marked o (tried r)) ≡ source_count r = full_marked o bounds.0 full in
      (
        same,
        fine,
        bounds.0,
        record {
          distinct = tried-IsDistinct r v;
          below = tried-Below r v;
          current_in = inr bounds.0;
          delayed_in = bounds.1;
          trail = inl still;
        },
        omega (arith, ap (λ (l : List (Option ℕ)). length l) d),
      )

All-snoc {ℓ κ} :
    {A : Type ℓ} (P : A → Type κ) (xs : List A) (x : A) → All P xs → P x → All P (xs ++ x ∷ [])
All-snoc P [] x h p = (p, tt)
All-snoc P (y ∷ xs) x h p = (h.0, All-snoc P xs x h.1 p)

-- A delayed source is one more visit that is left.
pub delay_lem :
    (r : LoadBalancingResult)
    → IsProper r
    → IsIndex (source_count r) r.current_index
    → IsProper (delay r) × (left (delay r) ≡ left r + 1)
unfolding delay
delay_lem r v i = (
  record {
    distinct = v.distinct;
    below = v.below;
    current_in = v.current_in;
    delayed_in = All-snoc _ r.delayed r.current_index v.delayed_in i;
    trail = v.trail;
  },
  omega (arith, length-append r.delayed (r.current_index ∷ [])),
)
