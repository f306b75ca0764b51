-- ===== src/PeerClient/Deadlock.antt =====
-- A run of getResponse after which it never returns.
use clusterlink.Common.{
  ℕ, suc, ◌≡◌, ◌≢◌, refl, sym, ap, ◌∙◌, inl, inr, String, Bool, true, false, Option, none, some,
  List, [], ◌∷◌, Result, ok, arith, nat_eq, nat_eq_iff, if◌then◌else◌, Bool-cases, Option-cases,
  subst, ltb,
}
use clusterlink.PeerClient.{
  Phase, calling, waiting, sending, sent, ended, Main, marking, Calls, Action, respond, lock,
  receive, unlock, mark, fail, set_phase, start_calls, respond_at, lock_at, receive_at, unlock_at,
  step, run, to_phase,
}

-- The first gateway responds and hands its response over, and before the caller takes the lock again
-- the goroutine of the second takes it, and sends.
abbrev pub bad_run : List Action
bad_run = respond 0 ∷ respond 1 ∷ lock 0 ∷ receive 0 ∷ unlock 0 ∷ lock 1 ∷ []

module _ {R : Type 0} (outcome : ℕ → Result String R) (r : R) where
  -- The caller waits for the lock that goroutine `1` holds at its send, and no other goroutine will
  -- release it.
  pub record IsStuck (c : Calls R) : Type 0 where
    pub is_marking : c.main ≡ marking r
    pub is_locked : c.locked ≡ true
    pub is_sending : c.phase 1 ≡ sending
    pub none_sent : (i : ℕ) → c.phase i ≢ sent

  waiting-IsStuck :
      (i : ℕ) (c : Calls R)
      → c.phase i ≡ calling
      → IsStuck c
      → IsStuck (to_phase outcome i waiting c)
  waiting-IsStuck i c q v = record {
    is_marking = v.is_marking;
    is_locked = v.is_locked;
    is_sending = elim (Bool-cases (nat_eq i 1)) [
      | inr other ↦ rw other v.is_sending
      | inl one ↦
          let same : i ≡ 1 = (nat_eq_iff i 1).0 one in
          let clash : calling ≡ sending = sym q ∙ ap c.phase same ∙ v.is_sending in
          absurd (cc clash)
    ];
    none_sent = λ j h. elim (Bool-cases (nat_eq i j)) [
      | inl same ↦ let clash : waiting ≡ sent = rw same at h in absurd (cc clash)
      | inr other ↦ v.none_sent j (rw other at h)
    ];
  }

  respond-IsStuck :
      (i : ℕ) (x : Phase) (c c' : Calls R)
      → c.phase i ≡ x
      → respond_at outcome i x c ≡ some c'
      → IsStuck c
      → IsStuck c'
  respond-IsStuck i calling c c' q h v =
      let e : to_phase outcome i waiting c ≡ c' = cc h in subst IsStuck e (waiting-IsStuck i c q v)
  respond-IsStuck i waiting c c' q h v = absurd (cc h)
  respond-IsStuck i sending c c' q h v = absurd (cc h)
  respond-IsStuck i sent c c' q h v = absurd (cc h)
  respond-IsStuck i ended c c' q h v = absurd (cc h)

  lock_refused : (i : ℕ) (x : Phase) (d : Bool) (c : Calls R) → lock_at outcome i x true d c ≡ none
  lock_refused i calling d c = refl
  lock_refused i waiting d c = refl
  lock_refused i sending d c = refl
  lock_refused i sent d c = refl
  lock_refused i ended d c = refl

  receive_refused : (i : ℕ) (x : Phase) (c : Calls R) → receive_at outcome i x (marking r) c ≡ none
  receive_refused i calling c = refl
  receive_refused i waiting c = refl
  receive_refused i sending c = refl
  receive_refused i sent c = refl
  receive_refused i ended c = refl

  unlock_refused : (i : ℕ) (x : Phase) (c : Calls R) → x ≢ sent → unlock_at outcome i x c ≡ none
  unlock_refused i calling c d = refl
  unlock_refused i waiting c d = refl
  unlock_refused i sending c d = refl
  unlock_refused i sent c d = absurd (d refl)
  unlock_refused i ended c d = refl

  impossible : {A : Type 0} {o : Option (Calls R)} {c : Calls R} → o ≡ none → o ≡ some c → A
  impossible p q = absurd (cc (p, q))

  step-IsStuck : (a : Action) (c c' : Calls R) → step outcome a c ≡ some c' → IsStuck c → IsStuck c'
  step-IsStuck (respond i) c c' h v = respond-IsStuck i (c.phase i) c c' refl h v
  step-IsStuck (lock i) c c' h v =
      impossible
        (subst (λ (l : Bool). lock_at outcome i (c.phase i) l c.is_done c ≡ none) (sym v.is_locked)
          (lock_refused i (c.phase i) c.is_done c))
        h
  step-IsStuck (receive i) c c' h v =
      impossible
        (subst (λ (m : Main R). receive_at outcome i (c.phase i) m c ≡ none) (sym v.is_marking)
          (receive_refused i (c.phase i) c))
        h
  step-IsStuck (unlock i) c c' h v = impossible (unlock_refused i (c.phase i) c (v.none_sent i)) h
  step-IsStuck mark c c' h v = impossible (rw (v.is_marking, v.is_locked) refl) h
  step-IsStuck fail c c' h v = impossible (rw v.is_marking refl) h

  -- After every run, if it is possible, the caller still waits for the lock.
  abbrev pub StillMarking : Option (Calls R) → Type 0
  StillMarking none = Unit
  StillMarking (some c) = c.main ≡ marking r

  run-IsStuck :
      (actions : List Action) (c : Calls R) → IsStuck c → StillMarking (run outcome actions c)
  unfolding run
  run-IsStuck [] c v = v.is_marking
  run-IsStuck (a ∷ actions) c v = elim (Option-cases (step outcome a c)) [
    | inl q ↦ rw (q, run) tt
    | inr (c', q) ↦ rw (q, run) (run-IsStuck actions c' (step-IsStuck a c c' q v))
  ]

  abbrev stuck_phase : ℕ → ℕ → Phase
  stuck_phase n = set_phase 1 sending (
      set_phase 0 ended (
        set_phase 0 sent (
          set_phase 0 sending (
            set_phase 1 waiting
              (set_phase 0 waiting (λ i. if ltb i (suc (suc n)) then calling else ended))))))

  abbrev stuck_calls : ℕ → Calls R
  stuck_calls n = record { phase = stuck_phase n; locked = true; is_done = false; main = marking r }

  stuck_phase-sent : (n i : ℕ) → stuck_phase n i ≢ sent
  stuck_phase-sent n i h = elim (Bool-cases (nat_eq 1 i)) [
    | inl one ↦ let clash : sending ≡ sent = rw one at h in absurd (cc clash)
    | inr other ↦ elim (Bool-cases (nat_eq 0 i)) [
      | inl first ↦ let clash : ended ≡ sent = rw (other, first) at h in absurd (cc clash)
      | inr later ↦ elim (Bool-cases (ltb i (suc (suc n)))) [
        | inl inside ↦
            let clash : calling ≡ sent = rw (other, later, inside) at h in absurd (cc clash)
        | inr outside ↦
            let clash : ended ≡ sent = rw (other, later, outside) at h in absurd (cc clash)
      ]
    ]
  ]

  reaches :
      (n : ℕ)
      → outcome 0 ≡ ok r
      → run outcome bad_run (start_calls outcome (suc (suc n))) ≡ some (stuck_calls n)
  unfolding run start_calls
  reaches n q =
      let first : ltb 0 (suc (suc n)) ≡ true = ground arith in
      let second : ltb 1 (suc (suc n)) ≡ true = ground arith in rw (first, run, second, q) refl

  -- With two gateways or more, of which the first has a response, there is a run of getResponse after
  -- which it returns in no continuation: the response was received, but the caller waits for the lock for
  -- ever.
  pub get_response_deadlock :
      (n : ℕ)
      → outcome 0 ≡ ok r
      → (c : Calls R) × (run outcome bad_run (start_calls outcome (suc (suc n))) ≡ some c)
        × ((actions : List Action) → StillMarking (run outcome actions c))
  get_response_deadlock n q = (
    stuck_calls n,
    reaches n q,
    λ actions. run-IsStuck actions (stuck_calls n) (record {
      is_marking = refl;
      is_locked = refl;
      is_sending = refl;
      none_sent = stuck_phase-sent n;
    }),
  )
