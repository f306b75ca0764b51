-- ===== src/Monitor/Rounds.antt =====
-- When the monitor declares a peer reachable or unreachable.
use clusterlink.Common.{
  ℕ, suc, ◌+◌, ◌<◌, ◌≤◌, ◌≡◌, refl, ap, sym, subst, ◌++◌, str_eq, eq_iff, string_eq, ◌⊎◌, inl, inr,
  ◌∙◌, String, Bool, true, false, not, Option, none, some, ok, err, List, [], ◌∷◌, arith, ltb,
  length, All, if◌then◌else◌, Bool-cases,
}
use clusterlink.Crds.Peers.{Peer, Condition}
use clusterlink.Monitor.{
  PeerMonitor, Heartbeat, is_ok, same_bool, strike, declare_status, round, rounds, start, labels_of,
  healthy_threshold, unhealthy_threshold,
}

-- How many of the newest heartbeats had a given outcome.
abbrev pub streak : Bool → List Heartbeat → ℕ
streak b [] = 0
streak b (r ∷ older) = if same_bool b (is_ok r) then suc (streak b older) else 0

-- The threshold after a status was declared.
abbrev pub usual_threshold : Bool → ℕ
usual_threshold healthy = if healthy then unhealthy_threshold else healthy_threshold

-- The strikes are the newest heartbeats, and fewer than the threshold.
pub record IsKept (m : PeerMonitor) (h : List Heartbeat) : Type 0 where
  pub strikes : m.strike_count ≤ streak (not m.healthy) h
  pub few : m.strike_count < m.threshold
  pub usual : (m.threshold ≡ 1) ⊎ (m.threshold ≡ usual_threshold m.healthy)

strike_agrees :
    (b : Bool) (m : PeerMonitor)
    → same_bool m.healthy b ≡ true
    → ((strike b m).healthy ≡ m.healthy)
      × ((strike b m).pr ≡ m.pr)
      × ((strike b m).strike_count ≡ 0)
      × ((strike b m).threshold ≡ m.threshold)
unfolding strike
strike_agrees b m e = rw e (refl, refl, refl, refl)

strike_differs :
    (b : Bool) (m : PeerMonitor)
    → same_bool m.healthy b ≡ false
    → ((strike b m).healthy ≡ m.healthy)
      × ((strike b m).pr ≡ m.pr)
      × ((strike b m).strike_count ≡ m.strike_count + 1)
      × ((strike b m).threshold ≡ m.threshold)
unfolding strike
strike_differs b m e = rw e (refl, refl, refl, refl)

module _ (set_status_condition : List Condition → Condition → List Condition) where
  module _ (r : Heartbeat) (m : PeerMonitor) where
    round_waits :
        ltb (strike (is_ok r) m).strike_count (strike (is_ok r) m).threshold ≡ true
        → round set_status_condition r m ≡ (strike (is_ok r) m, none)
    unfolding round
    round_waits e = rw (e, round) refl

    round_declares :
        ltb (strike (is_ok r) m).strike_count (strike (is_ok r) m).threshold ≡ false
        → round set_status_condition r m ≡ (
          declare_status set_status_condition r (strike (is_ok r) m),
          some (declare_status set_status_condition r (strike (is_ok r) m)).pr,
        )
    unfolding round
    round_declares e = rw (e, round) refl

  -- What a round may lead to, after the heartbeats of `h` and the one of the round.
  -- The peer that is told is the one before with the condition that the heartbeat stands for, and its labels.
  abbrev pub told : Heartbeat → Peer → Peer
  told r pr = record pr {
    conditions = set_status_condition pr.conditions (record {
      kind = "PeerReachable";
      status = if is_ok r then "True" else "False";
      reason = "Heartbeat";
      message = "";
      observed_generation = 0;
      last_transition_time = "";
    });
    labels = labels_of r;
  }

  abbrev pub Led : Heartbeat → PeerMonitor → List Heartbeat → PeerMonitor × Option Peer → Type 0
  Led r m h out =
      IsKept out.0 (r ∷ h)
      × (((out.0.healthy ≡ m.healthy) × (out.0.pr ≡ m.pr) × (out.1 ≡ none))
          ⊎ ((out.0.healthy ≡ is_ok r)
              × (m.healthy ≡ not (is_ok r))
              × (m.threshold ≤ streak (is_ok r) (r ∷ h))
              × (out.0.pr ≡ told r m.pr)
              × (out.1 ≡ some (told r m.pr))))

  module _ (r : Heartbeat) (m : PeerMonitor) (h : List Heartbeat) (k : IsKept m h) where
    agrees-Led : same_bool m.healthy (is_ok r) ≡ true → Led r m h (round set_status_condition r m)
    agrees-Led e =
        let (a, p, b, c) = strike_agrees (is_ok r) m e in
        rw (round_waits r m (ground (arith, k.few))) (
          record {
            strikes = omega arith;
            few = omega (arith, k.few);
            usual = grind (arith, k.usual);
          },
          inl (a, p, refl),
        )

    waits-Led :
        same_bool m.healthy (is_ok r) ≡ false
        → m.strike_count + 1 < m.threshold
        → Led r m h (round set_status_condition r m)
    waits-Led e lt =
        let (a, p, b, c) = strike_differs (is_ok r) m e in
        rw (round_waits r m (ground arith)) (
          record {
            strikes = ground (arith, k.strikes);
            few = omega arith;
            usual = grind (arith, k.usual);
          },
          inl (a, p, refl),
        )

    flips-Led :
        same_bool m.healthy (is_ok r) ≡ false
        → m.threshold ≤ m.strike_count + 1
        → Led r m h (round set_status_condition r m)
    unfolding declare_status
    flips-Led e le =
        let (a, p, b, c) = strike_differs (is_ok r) m e in
        rw (round_declares r m (ground arith)) (
          record { strikes = omega arith; few = ground arith; usual = inr refl },
          inr (
            refl,
            ground arith,
            ground (arith, k.strikes),
            ap (told r) p,
            ap (λ (pr : Peer). some (told r pr)) p,
          ),
        )

    round-Led : Led r m h (round set_status_condition r m)
    round-Led = elim (Bool-cases (same_bool m.healthy (is_ok r))) [
      | inl e ↦ agrees-Led e
      | inr e ↦ elim (Bool-cases (ltb (m.strike_count + 1) m.threshold)) [
        | inl lt ↦ waits-Led e (ground arith)
        | inr ge ↦ flips-Led e (ground arith)
      ]
    ]

  rounds-IsKept :
      (is_condition_true : List Condition → String → Bool) (pr : Peer) (h : List Heartbeat)
      → IsKept (rounds set_status_condition h (start is_condition_true pr)) h
  unfolding rounds start
  rounds-IsKept is_condition_true pr [] = record {
    strikes = omega arith;
    few = omega arith;
    usual = inl refl;
  }
  rounds-IsKept is_condition_true pr (r ∷ h) =
      (round-Led r _ h (rounds-IsKept is_condition_true pr h)).0

  -- One round with the outcome `b` reaches the status `b`, or is one more strike.
  abbrev Nears : Bool → PeerMonitor → PeerMonitor → Type 0
  Nears b m m' =
      (m'.strike_count < m'.threshold)
      × ((m'.healthy ≡ b)
          ⊎ ((m.healthy ≡ not b)
              × (m'.strike_count ≡ m.strike_count + 1)
              × (m'.threshold ≡ m.threshold)))

  round-Nears :
      (b : Bool) (r : Heartbeat) (m : PeerMonitor)
      → same_bool b (is_ok r) ≡ true
      → m.strike_count < m.threshold
      → Nears b m (round set_status_condition r m).0
  unfolding declare_status
  round-Nears b r m same few = elim (Bool-cases (same_bool m.healthy (is_ok r))) [
    | inl e ↦
        let (a, p, s, t) = strike_agrees (is_ok r) m e in
        rw (round_waits r m (ground arith)) (ground arith, inl (a ∙ ground arith))
    | inr e ↦
        let (a, p, s, t) = strike_differs (is_ok r) m e in
        elim (Bool-cases (ltb (m.strike_count + 1) m.threshold)) [
          | inl lt ↦ rw (round_waits r m (ground arith)) (ground arith, inr (ground arith, s, t))
          | inr ge ↦ rw (round_declares r m (ground arith)) (ground arith, inl (ground arith))
        ]
  ]

  abbrev pub Outcomes : Bool → List Heartbeat → Type 0
  Outcomes b rs = All (λ r. same_bool b (is_ok r) ≡ true) rs

  rounds_near :
      (b : Bool) (rs : List Heartbeat) (m : PeerMonitor)
      → Outcomes b rs
      → m.strike_count < m.threshold
      → ((rounds set_status_condition rs m).strike_count
          < (rounds set_status_condition rs m).threshold)
        × (((rounds set_status_condition rs m).healthy ≡ b)
            ⊎ (((rounds set_status_condition rs m).strike_count ≡ m.strike_count + length rs)
                × ((rounds set_status_condition rs m).threshold ≡ m.threshold)))
  unfolding rounds
  rounds_near b [] m all few = (few, inr (omega arith, refl))
  rounds_near b (r ∷ rs) m all few =
      let (few', older) = rounds_near b rs m all.1 few in
      let (few'', newest) = round-Nears b r (rounds set_status_condition rs m) all.0 few' in
      (
        few'',
        elim newest [
          | inl reached ↦ inl reached
          | inr (was, s, t) ↦ elim older [
            | inl reached ↦ absurd (ground arith)
            | inr (s', t') ↦ inr (omega arith, t ∙ t')
          ]
        ],
      )

  -- What is documented of `meta.IsStatusConditionTrue` and `meta.SetStatusCondition`.
  abbrev pub ReadsStatus : (List Condition → String → Bool) → Type 0
  ReadsStatus is_condition_true =
      (conditions : List Condition) (c : Condition)
      → is_condition_true (set_status_condition conditions c) c.kind ≡ str_eq c.status "True"

  told_lem :
      (is_condition_true : List Condition → String → Bool)
      → ReadsStatus is_condition_true
      → (r : Heartbeat) (pr : Peer)
      → is_condition_true (told r pr).conditions "PeerReachable" ≡ is_ok r
  told_lem is_condition_true reads (ok labels) pr = reads _ _ ∙ (eq_iff "True" "True").1 refl
  told_lem is_condition_true reads (err e) pr = reads _ _ ∙ ground (arith, eq_iff "False" "True")

  -- The condition of the peer tells the status.
  rounds_tell :
      (is_condition_true : List Condition → String → Bool) (pr : Peer)
      → ReadsStatus is_condition_true
      → (h : List Heartbeat)
      → let m = rounds set_status_condition h (start is_condition_true pr) in
        is_condition_true m.pr.conditions "PeerReachable" ≡ m.healthy
  unfolding rounds start
  rounds_tell is_condition_true pr reads [] = refl
  rounds_tell is_condition_true pr reads (r ∷ h) =
      let m = rounds set_status_condition h (start is_condition_true pr) in
      let at = λ (p : Peer). is_condition_true p.conditions "PeerReachable" in
      elim (round-Led r m h (rounds-IsKept is_condition_true pr h)).1 [
        | inl (same, kept, quiet) ↦ ap at kept ∙ rounds_tell is_condition_true pr reads h ∙ sym same
        | inr (new, was, long, changed, called) ↦
            ap at changed ∙ told_lem is_condition_true reads r m.pr ∙ sym new
      ]

  reaches_status :
      (is_condition_true : List Condition → String → Bool) (pr : Peer) (h rs : List Heartbeat)
      (b : Bool)
      → Outcomes b rs
      → ((rounds set_status_condition h (start is_condition_true pr)).threshold ≤ length rs)
        ⊎ (unhealthy_threshold ≤ length rs)
      → (rounds set_status_condition rs
          (rounds set_status_condition h (start is_condition_true pr))).healthy
        ≡ b
  reaches_status is_condition_true pr h rs b all long =
      let k = rounds-IsKept is_condition_true pr h in
      let (few, reached) = rounds_near b rs _ all k.few in
      elim reached [ inl same ↦ same | inr (s, t) ↦ absurd (grind (arith, k.usual, long)) ]

  rounds-append :
      (rs h : List Heartbeat) (m : PeerMonitor)
      → rounds set_status_condition (rs ++ h) m
        ≡ rounds set_status_condition rs (rounds set_status_condition h m)
  unfolding rounds
  rounds-append [] h m = refl
  rounds-append (r ∷ rs) h m =
      ap (λ (x : PeerMonitor). (round set_status_condition r x).0) (rounds-append rs h m)

  -- After any history since the start, as many heartbeats of one outcome in a row as the threshold,
  -- and five in every case, lead to the status of this outcome, and the condition PeerReachable of the
  -- monitored peer tells it, if a condition that was set is the one that is read.
  pub rounds_converge :
      (is_condition_true : List Condition → String → Bool) (pr : Peer) (h rs : List Heartbeat)
      (b : Bool)
      → ReadsStatus is_condition_true
      → Outcomes b rs
      → ((rounds set_status_condition h (start is_condition_true pr)).threshold ≤ length rs)
        ⊎ (unhealthy_threshold ≤ length rs)
      → let m =
          rounds set_status_condition rs
            (rounds set_status_condition h (start is_condition_true pr)) in
        (m.healthy ≡ b) × (is_condition_true m.pr.conditions "PeerReachable" ≡ b)
  rounds_converge is_condition_true pr h rs b reads all long =
      let reached = reaches_status is_condition_true pr h rs b all long in
      (
        reached,
        subst (λ (m : PeerMonitor). is_condition_true m.pr.conditions "PeerReachable" ≡ m.healthy)
              (rounds-append rs h (start is_condition_true pr))
              (rounds_tell is_condition_true pr reads (rs ++ h))
            ∙ reached,
      )
