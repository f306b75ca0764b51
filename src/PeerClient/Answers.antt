-- ===== src/PeerClient/Answers.antt =====
-- What getResponse returns comes from the gateways, in every run.
use clusterlink.Common.{
  ℕ, zero, suc, ◌<◌, ◌≡◌, refl, sym, ap, ◌∙◌, inl, inr, String, Bool, true, false, some, List, [],
  ◌∷◌, ◌++◌, Result, ok, err, arith, length, length-append, map, All, All-map, Bool-cases,
  Option-cases, nat_eq_iff, ltb, ◌≢◌,
}
use clusterlink.PeerClient.{
  Phase, calling, waiting, sending, sent, ended, Main, collecting, marking, returned, returned_nil,
  Calls, Action, respond, lock, receive, unlock, mark, fail, set_phase, start_calls, single,
  respond_at, lock_at, received, receive_at, unlock_at, mark_in, fail_in, step, run,
}
use clusterlink.PeerClient.Kept.{
  All-snoc, map-snoc, AreDifferent-snoc, is_over, error_of, IsFailed, IsSound, IsKept, kept-IsSound,
  AreOutside, AreSound, moved_outside, over_after, moved, Sound, after_step,
}

module _ {R : Type 0} (outcome : ℕ → Result String R) (n : ℕ) where
  respond-Sound :
      (i : ℕ) (x : Phase) (c c' : Calls R)
      → c.phase i ≡ x
      → respond_at outcome i x c ≡ some c'
      → Sound outcome n c
      → Sound outcome n c'
  respond-Sound i calling c c' q h v =
      after_step outcome n refl h
        (moved outcome n c.phase i calling waiting q c.main (λ p. cc p) (λ p. absurd (cc p)) v)
  respond-Sound i waiting c c' q h v = absurd (cc h)
  respond-Sound i sending c c' q h v = absurd (cc h)
  respond-Sound i sent c c' q h v = absurd (cc h)
  respond-Sound i ended c c' q h v = absurd (cc h)

  lock-Sound :
      (i : ℕ) (x : Phase) (l d : Bool) (c c' : Calls R)
      → c.phase i ≡ x
      → lock_at outcome i x l d c ≡ some c'
      → Sound outcome n c
      → Sound outcome n c'
  lock-Sound i waiting false true c c' q h v =
      after_step outcome n refl h
        (moved outcome n c.phase i waiting ended q c.main (λ p. cc p) (λ p. refl) v)
  lock-Sound i waiting false false c c' q h v =
      after_step outcome n refl h
        (moved outcome n c.phase i waiting sending q c.main (λ p. cc p) (λ p. absurd (cc p)) v)
  lock-Sound i waiting true d c c' q h v = absurd (cc h)
  lock-Sound i calling l d c c' q h v = absurd (cc h)
  lock-Sound i sending l d c c' q h v = absurd (cc h)
  lock-Sound i sent l d c c' q h v = absurd (cc h)
  lock-Sound i ended l d c c' q h v = absurd (cc h)

  unlock-Sound :
      (i : ℕ) (x : Phase) (c c' : Calls R)
      → c.phase i ≡ x
      → unlock_at outcome i x c ≡ some c'
      → Sound outcome n c
      → Sound outcome n c'
  unlock-Sound i sent c c' q h v =
      after_step outcome n refl h
        (moved outcome n c.phase i sent ended q c.main (λ p. cc p) (λ p. refl) v)
  unlock-Sound i calling c c' q h v = absurd (cc h)
  unlock-Sound i waiting c c' q h v = absurd (cc h)
  unlock-Sound i sending c c' q h v = absurd (cc h)
  unlock-Sound i ended c c' q h v = absurd (cc h)

  module _ (phase : ℕ → Phase) (i : ℕ) (q : phase i ≡ sending) where
    is_gateway : AreOutside outcome n phase → i < n
    is_gateway out = elim (Bool-cases (ltb i n)) [
      | inl inside ↦ ground arith
      | inr outside ↦ let clash : sending ≡ ended = sym q ∙ out i outside in absurd (cc clash)
    ]

    not_before : (is : List ℕ) → All (λ j. is_over (phase j) ≡ true) is → All (λ j. j ≢ i) is
    not_before is o =
        All-map
          (λ j h p. let clash : false ≡ true = sym (ap is_over (ap phase p ∙ q)) ∙ h in cc clash) is
          o

    -- The goroutine is over once it has sent.
    sent_last : is_over (set_phase i sent phase i) ≡ true
    sent_last = rw ((nat_eq_iff i i).1 refl) refl

    received-Kept :
        (k : ℕ) (es : List String) (o : Result String R) (c : Calls R)
        → outcome i ≡ o
        → AreOutside outcome n phase
        → IsKept outcome n phase (collecting (suc k) es)
        → IsKept outcome n (set_phase i sent phase) (received outcome i k es o c).main
    received-Kept k es (ok r) c g out h = (i, is_gateway out, g)
    received-Kept k es (err e) c g out (is, (list, failed, apart), l, o) =
        let text : error_of outcome n i ≡ e = rw (g, error_of) refl in
        (
          is ++ (i ∷ []),
          (
            ap (λ (a : List String). a ++ (e ∷ [])) list
                ∙ ap (λ (t : String). map (error_of outcome n) is ++ (t ∷ [])) (sym text)
                ∙ sym (map-snoc (error_of outcome n) is i),
            All-snoc (IsFailed outcome n) is i failed (is_gateway out, g ∙ ap err (sym text)),
            AreDifferent-snoc is i apart (not_before is o),
          ),
          omega (arith, l, length-append {0} is (i ∷ [])),
          All-snoc (λ j. is_over (set_phase i sent phase j) ≡ true) is i
              (All-map (over_after outcome n phase i sending sent q (λ p. refl)) is o) sent_last,
        )

  received-Sound :
      (i k : ℕ) (es : List String) (o : Result String R) (c : Calls R)
      → outcome i ≡ o
      → c.phase i ≡ sending
      → AreSound outcome n c.phase (collecting (suc k) es)
      → Sound outcome n (received outcome i k es o c)
  received-Sound i k es (ok r) c g q (out, h) = (
    moved_outside outcome n c.phase i sending sent q (λ p. cc p) out,
    received-Kept c.phase i q k es (ok r) c g out h,
  )
  received-Sound i k es (err e) c g q (out, h) = (
    moved_outside outcome n c.phase i sending sent q (λ p. cc p) out,
    received-Kept c.phase i q k es (err e) c g out h,
  )

  receive-Sound :
      (i : ℕ) (x : Phase) (m : Main R) (c c' : Calls R)
      → c.phase i ≡ x
      → receive_at outcome i x m c ≡ some c'
      → AreSound outcome n c.phase m
      → Sound outcome n c'
  receive-Sound i sending (collecting (suc k) es) c c' q h v =
      after_step outcome n refl h (received-Sound i k es (outcome i) c refl q v)
  receive-Sound i sending (collecting zero es) c c' q h v = absurd (cc h)
  receive-Sound i sending (marking r) c c' q h v = absurd (cc h)
  receive-Sound i sending (returned r) c c' q h v = absurd (cc h)
  receive-Sound i sending returned_nil c c' q h v = absurd (cc h)
  receive-Sound i calling m c c' q h v = absurd (cc h)
  receive-Sound i waiting m c c' q h v = absurd (cc h)
  receive-Sound i sent m c c' q h v = absurd (cc h)
  receive-Sound i ended m c c' q h v = absurd (cc h)

  mark-Sound :
      (m : Main R) (l : Bool) (c c' : Calls R)
      → mark_in outcome m l c ≡ some c'
      → AreSound outcome n c.phase m
      → Sound outcome n c'
  mark-Sound (marking r) false c c' h v = after_step outcome n refl h v
  mark-Sound (marking r) true c c' h v = absurd (cc h)
  mark-Sound (collecting k es) l c c' h v = absurd (cc h)
  mark-Sound (returned r) l c c' h v = absurd (cc h)
  mark-Sound returned_nil l c c' h v = absurd (cc h)

  -- No errors are those of no gateway.
  none_failed : (is : List ℕ) → [] ≡ map (error_of outcome n) is → length is ≡ n → n ≡ 0
  none_failed [] h l = sym l
  none_failed (i ∷ is) h l = absurd (cc h)

  fail-Sound :
      (m : Main R) (c c' : Calls R)
      → fail_in outcome m c ≡ some c'
      → AreSound outcome n c.phase m
      → Sound outcome n c'
  fail-Sound (collecting zero []) c c' h (out, (is, (list, f, d), l, o)) =
      after_step outcome n refl h (out, none_failed is list (omega (arith, l)))
  fail-Sound (collecting zero (e ∷ es)) c c' h (out, (is, errors, l, o)) =
      after_step outcome n refl h (out, (is, errors, omega (arith, l)))
  fail-Sound (collecting (suc k) es) c c' h v = absurd (cc h)
  fail-Sound (marking r) c c' h v = absurd (cc h)
  fail-Sound (returned r) c c' h v = absurd (cc h)
  fail-Sound returned_nil c c' h v = absurd (cc h)

  step-Sound :
      (a : Action) (c c' : Calls R)
      → step outcome a c ≡ some c'
      → Sound outcome n c
      → Sound outcome n c'
  step-Sound (respond i) c c' h v = respond-Sound i (c.phase i) c c' refl h v
  step-Sound (lock i) c c' h v = lock-Sound i (c.phase i) c.locked c.is_done c c' refl h v
  step-Sound (receive i) c c' h v = receive-Sound i (c.phase i) c.main c c' refl h v
  step-Sound (unlock i) c c' h v = unlock-Sound i (c.phase i) c c' refl h v
  step-Sound mark c c' h v = mark-Sound c.main c.locked c c' h v
  step-Sound fail c c' h v = fail-Sound c.main c c' h v

  run-Sound :
      (actions : List Action) (c c' : Calls R)
      → run outcome actions c ≡ some c'
      → Sound outcome n c
      → Sound outcome n c'
  unfolding run
  run-Sound [] c c' h v = after_step outcome n refl h v
  run-Sound (a ∷ actions) c c' h v = elim (Option-cases (step outcome a c)) [
    | inl q ↦ absurd (let h' = rw (q, run) at h in cc h')
    | inr (d, q) ↦ run-Sound actions d c' (rw (q, run) at h) (step-Sound a c d q v)
  ]

module _ {R : Type 0} (outcome : ℕ → Result String R) where
  single_lem :
      (o : Result String R) → outcome 0 ≡ o → IsSound outcome 1 (returned (single outcome o))
  single_lem (ok r) q = (0, omega arith, q)
  single_lem (err e) q =
      let text : error_of outcome 1 0 ≡ e = rw (q, error_of) refl in
      (
        0 ∷ [],
        (
          ap (λ (t : String). t ∷ []) (sym text),
          ((omega arith, q ∙ ap err (sym text)), tt),
          (tt, tt),
        ),
        refl,
      )

  single-Sound :
      (o : Result String R)
      → outcome 0 ≡ o
      → IsKept outcome 1 (λ i. ended) (returned (single outcome o))
  single-Sound (ok r) q = single_lem (ok r) q
  single-Sound (err e) q = single_lem (err e) q

  start-Sound : (n : ℕ) → Sound outcome n (start_calls outcome n)
  unfolding start_calls
  start-Sound zero = ((λ i h. rw h refl), ([], (refl, tt, tt), refl, tt))
  start-Sound (suc zero) = ((λ i h. refl), single-Sound (outcome 0) refl)
  start-Sound (suc (suc n)) = ((λ i h. rw h refl), ([], (refl, tt, tt), omega arith, tt))

  -- In every run, a response that getResponse holds or returns is the response of one of the gateways. The
  -- errors that it holds are those of as many different gateways as it received from, in their order, and
  -- where it returns an error it joins one error of each gateway. It returns neither a response nor an
  -- error only where there is no gateway.
  pub get_response-IsSound :
      (n : ℕ) (actions : List Action) (c : Calls R)
      → run outcome actions (start_calls outcome n) ≡ some c
      → IsSound outcome n c.main
  get_response-IsSound n actions c h =
      let (out, kept) = run-Sound outcome n actions (start_calls outcome n) c h (start-Sound n) in
      kept-IsSound outcome n c.phase c.main kept
