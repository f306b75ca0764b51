-- ===== src/PeerClient/Kept.antt =====
-- What stays true of the goroutines and the caller of getResponse while a goroutine goes on.
use clusterlink.Common.{
  ℕ, ◌+◌, ◌<◌, ◌≡◌, ◌≢◌, refl, sym, ap, ◌∙◌, inl, inr, String, Bool, true, false, Option, some,
  List, [], ◌∷◌, ◌++◌, Result, ok, err, length, map, subst, All, All-map, Bool-cases, nat_eq,
  nat_eq_iff, ltb,
}
use clusterlink.PeerClient.{
  Phase, calling, waiting, sending, sent, ended, Main, collecting, marking, returned, returned_nil,
  Calls, set_phase,
}

pub All-snoc :
    {A : Type 0} (P : A → Type 0) (xs : List A) (x : A) → All P xs → P x → All P (xs ++ (x ∷ []))
All-snoc P [] x h p = (p, tt)
All-snoc P (y ∷ ys) x h p = (h.0, All-snoc P ys x h.1 p)

pub map-snoc :
    {A B : Type 0} (f : A → B) (xs : List A) (x : A)
    → map f (xs ++ (x ∷ [])) ≡ map f xs ++ (f x ∷ [])
map-snoc f [] x = refl
map-snoc f (y ∷ ys) x = ap (λ (l : List _). f y ∷ l) (map-snoc f ys x)

abbrev pub AreDifferent : List ℕ → Type 0
AreDifferent [] = Unit
AreDifferent (x ∷ xs) = All (λ y. y ≢ x) xs × AreDifferent xs

pub AreDifferent-snoc :
    (xs : List ℕ) (x : ℕ) → AreDifferent xs → All (λ y. y ≢ x) xs → AreDifferent (xs ++ (x ∷ []))
AreDifferent-snoc [] x d h = (tt, tt)
AreDifferent-snoc (y ∷ ys) x d h =
    (All-snoc (λ z. z ≢ y) ys x d.0 (λ q. h.0 (sym q)), AreDifferent-snoc ys x d.1 h.1)

-- A goroutine that has handed its result over.
abbrev pub is_over : Phase → Bool
is_over calling = false
is_over waiting = false
is_over sending = false
is_over sent = true
is_over ended = true

module _ {R : Type 0} (outcome : ℕ → Result String R) (n : ℕ) where
  abbrev pub error_of : ℕ → String
  error_of i = elim (outcome i) [ err e ↦ e | ok r ↦ "" ]

  -- A gateway that returned an error.
  abbrev pub IsFailed : ℕ → Type 0
  IsFailed i = (i < n) × (outcome i ≡ err (error_of i))

  -- The errors are those of different gateways.
  abbrev pub AreErrorsOf : List String → List ℕ → Type 0
  AreErrorsOf es is = (es ≡ map error_of is) × All IsFailed is × AreDifferent is

  abbrev pub IsResponse : R → Type 0
  IsResponse r = (i : ℕ) × (i < n) × (outcome i ≡ ok r)

  -- A response is that of a gateway, and errors are one of each gateway that was received from: of all
  -- gateways where they are returned.
  abbrev pub IsSound : Main R → Type 0
  IsSound (collecting k es) = (is : List ℕ) × AreErrorsOf es is × (k + length is ≡ n)
  IsSound (marking r) = IsResponse r
  IsSound (returned (ok r)) = IsResponse r
  IsSound (returned (err es)) = (is : List ℕ) × AreErrorsOf es is × (length is ≡ n)
  IsSound returned_nil = n ≡ 0

  -- The same while the goroutines go on: those that were received from are over.
  abbrev pub IsKept : (ℕ → Phase) → Main R → Type 0
  IsKept phase (collecting k es) =
      (is : List ℕ) × AreErrorsOf es is
      × (k + length is ≡ n)
      × All (λ i. is_over (phase i) ≡ true) is
  IsKept phase (marking r) = IsResponse r
  IsKept phase (returned (ok r)) = IsResponse r
  IsKept phase (returned (err es)) = (is : List ℕ) × AreErrorsOf es is × (length is ≡ n)
  IsKept phase returned_nil = n ≡ 0

  pub kept-IsSound : (phase : ℕ → Phase) (m : Main R) → IsKept phase m → IsSound m
  kept-IsSound phase (collecting k es) (is, e, l, o) = (is, e, l)
  kept-IsSound phase (marking r) h = h
  kept-IsSound phase (returned (ok r)) h = h
  kept-IsSound phase (returned (err es)) h = h
  kept-IsSound phase returned_nil h = h

  -- No goroutine runs for what is not a gateway.
  abbrev pub AreOutside : (ℕ → Phase) → Type 0
  AreOutside phase = (i : ℕ) → ltb i n ≡ false → phase i ≡ ended

  abbrev pub AreSound : (ℕ → Phase) → Main R → Type 0
  AreSound phase m = AreOutside phase × IsKept phase m

  module _ (phase : ℕ → Phase) (i : ℕ) (x y : Phase) (q : phase i ≡ x) where
    pub moved_outside : x ≢ ended → AreOutside phase → AreOutside (set_phase i y phase)
    moved_outside live out j h = elim (Bool-cases (nat_eq i j)) [
      | inr other ↦ rw other (out j h)
      | inl same ↦ absurd (live (sym q ∙ ap phase ((nat_eq_iff i j).0 same) ∙ out j h))
    ]

    pub over_after :
        (is_over x ≡ true → is_over y ≡ true)
        → (j : ℕ) → is_over (phase j) ≡ true
        → is_over (set_phase i y phase j) ≡ true
    over_after keep j h = elim (Bool-cases (nat_eq i j)) [
      | inr other ↦ rw other h
      | inl same ↦ rw same (keep (ap is_over (sym q ∙ ap phase ((nat_eq_iff i j).0 same)) ∙ h))
    ]

    moved_main :
        (m : Main R)
        → (is_over x ≡ true → is_over y ≡ true)
        → IsKept phase m
        → IsKept (set_phase i y phase) m
    moved_main (collecting k es) keep (is, e, l, o) = (is, e, l, All-map (over_after keep) is o)
    moved_main (marking r) keep h = h
    moved_main (returned (ok r)) keep h = h
    moved_main (returned (err es)) keep h = h
    moved_main returned_nil keep h = h

    pub moved :
        (m : Main R)
        → x ≢ ended
        → (is_over x ≡ true → is_over y ≡ true)
        → AreSound phase m
        → AreSound (set_phase i y phase) m
    moved m live keep (out, h) = (moved_outside live out, moved_main m keep h)

  abbrev pub Sound : Calls R → Type 0
  Sound c = AreSound c.phase c.main

  -- From what a step leaves to the state after it.
  pub after_step :
      {o : Option (Calls R)} {c' d : Calls R} → o ≡ some d → o ≡ some c' → Sound d → Sound c'
  after_step {o} {c'} {d} p h v = let e : d ≡ c' = cc (p, h) in subst Sound e v
