-- ===== src/Dataplane/Forwarder.antt =====
-- The forwarder of pkg/dataplane/server/forwarder.go: workloadToPeer and peerToWorkload, which are the
-- same loop with the connections exchanged. What the connections do in each round is given.
use clusterlink.Common.{
  ℕ, zero, suc, ◌≡◌, ◌≢◌, ◌≤◌, length, arith, refl, sym, ap, ◌∙◌, String, Bool, true, ◌||◌, Option,
  none, some, List, [], ◌∷◌, ◌++◌, All, Bool-cases, inl, inr, if◌then◌else◌,
}
use clusterlink.Control.Names.{take}

-- `end_of_file` is `io.EOF`.
pub data IoError : Type 0 where
  end_of_file : IoError
  io_error : String → IoError

-- `timed_out` is a `net.Error` whose Timeout() is true.
pub data ReadError : Type 0 where
  timed_out : ReadError
  read_failed : IoError → ReadError

-- One round: whether the other direction has set the signal, the error of SetReadDeadline, the bytes and
-- the error of the Read, which may come together, and how many of them are written, with the error of the
-- Write.
pub record Round : Type 0 where
  pub other_closed : Bool
  pub deadline_error : Option String
  pub bytes : List ℕ
  pub read_error : Option ReadError
  pub write_count : ℕ
  pub write_error : Option IoError

-- The bytes written so far, and `closeSignal`.
pub record Pipe : Type 0 where
  pub written : List ℕ
  pub close_signal : Bool

-- The loop is still running at the end of the rounds, or it returned, with an error if there is one.
pub data LoopEnd : Type 0 where
  looping : LoopEnd
  finished : Option String → LoopEnd

-- An end of file is no error.
abbrev pub reported : IoError → Option String
reported end_of_file = none
reported (io_error e) = some e

-- After the loop.
abbrev pub broke : IoError → Pipe → Pipe × LoopEnd
broke e p = (record p { close_signal = true }, finished (reported e))

-- After the Write, with the rounds to come.
abbrev pub after_write : Option IoError → Pipe → (Pipe → Pipe × LoopEnd) → Pipe × LoopEnd
after_write none p next = next p
after_write (some e) p next = broke e p

-- The Write; its count is not looked at.
abbrev pub write_bytes : Round → Pipe → Pipe
write_bytes r p = record p { written = p.written ++ take r.write_count r.bytes }

-- After the Read: with an error, its bytes are not looked at.
abbrev pub after_read : Option ReadError → Round → Pipe → (Pipe → Pipe × LoopEnd) → Pipe × LoopEnd
after_read (some timed_out) r p next = next p
after_read (some (read_failed e)) r p next = broke e p
after_read none r p next = after_write r.write_error (write_bytes r p) next

abbrev pub after_deadline : Option String → Round → Pipe → (Pipe → Pipe × LoopEnd) → Pipe × LoopEnd
after_deadline (some e) r p next = (p, finished (some e))
after_deadline none r p next = after_read r.read_error r p next

unfoldable pub forward : List Round → Pipe → Pipe × LoopEnd
forward [] p = (p, looping)
forward (r ∷ rounds) p =
    if p.close_signal || r.other_closed
    then (record p { close_signal = true }, finished none)
    else after_deadline r.deadline_error r p (forward rounds)

-- All bytes that the connection has for the rounds, in their order.
abbrev pub incoming : List Round → List ℕ
incoming [] = []
incoming (r ∷ rounds) = r.bytes ++ incoming rounds

-- A Write without an error has written all, as `io.Writer` documents; and the connection has no bytes
-- with an error.
pub record IsProper (r : Round) : Type 0 where
  pub writes_all : r.write_error ≡ none → length r.bytes ≤ r.write_count
  pub has_none : r.read_error ≢ none → r.bytes ≡ []

append_assoc : (xs ys zs : List ℕ) → (xs ++ ys) ++ zs ≡ xs ++ (ys ++ zs)
append_assoc [] ys zs = refl
append_assoc (x ∷ xs) ys zs = ap (λ (l : List ℕ). x ∷ l) (append_assoc xs ys zs)

append-nil : (xs : List ℕ) → xs ++ [] ≡ xs
append-nil [] = refl
append-nil (x ∷ xs) = ap (λ (l : List ℕ). x ∷ l) (append-nil xs)

take_all : (n : ℕ) (xs : List ℕ) → length xs ≤ n → take n xs ≡ xs
take_all zero [] h = refl
take_all zero (x ∷ xs) h = absurd (omega (arith, h))
take_all (suc n) [] h = refl
take_all (suc n) (x ∷ xs) h = ap (λ (l : List ℕ). x ∷ l) (take_all n xs (omega (arith, h)))

take_rest : (n : ℕ) (xs : List ℕ) → (rest : List ℕ) × (take n xs ++ rest ≡ xs)
take_rest zero [] = ([], refl)
take_rest zero (x ∷ xs) = (x ∷ xs, refl)
take_rest (suc n) [] = ([], refl)
take_rest (suc n) (x ∷ xs) = let (rest, e) = take_rest n xs in (rest, ap (λ (l : List ℕ). x ∷ l) e)

-- What is written is what came before, then the first of the incoming bytes, and all of them while the
-- loop runs.
abbrev pub IsWritten : List Round → Pipe → Pipe × LoopEnd → Type 0
IsWritten rounds p out =
    (rest : List ℕ) × (out.0.written ++ rest ≡ p.written ++ incoming rounds)
    × (out.1 ≡ looping → rest ≡ [])

-- A loop that returned, with what it had written before the round.
stopped :
    (rounds : List Round) (p q : Pipe) (e : Option String)
    → q.written ≡ p.written
    → IsWritten rounds p (q, finished e)
stopped rounds p q e same =
    (incoming rounds, ap (λ (l : List ℕ). l ++ incoming rounds) same, λ h. absurd (cc h))

-- The rest of a write that failed.
stopped_write :
    (r : Round) (rounds : List Round) (p : Pipe) (e : IoError)
    → IsWritten (r ∷ rounds) p (broke e (write_bytes r p))
stopped_write r rounds p e =
    let (rest, q) = take_rest r.write_count r.bytes in
    (
      rest ++ incoming rounds,
      append_assoc p.written (take r.write_count r.bytes) (rest ++ incoming rounds)
          ∙ ap (λ (l : List ℕ). p.written ++ l)
              (sym (append_assoc (take r.write_count r.bytes) rest (incoming rounds))
                ∙ ap (λ (l : List ℕ). l ++ incoming rounds) q),
      λ h. absurd (cc h),
    )

-- A round that goes on, where all its bytes are written.
goes_on :
    (r : Round) (rounds : List Round) (p q : Pipe) (out : Pipe × LoopEnd)
    → q.written ≡ p.written ++ r.bytes
    → IsWritten rounds q out
    → IsWritten (r ∷ rounds) p out
goes_on r rounds p q out all (rest, e, done) = (
  rest,
  e
      ∙ ap (λ (l : List ℕ). l ++ incoming rounds) all
      ∙ append_assoc p.written r.bytes (incoming rounds),
  done,
)

module _ (r : Round) (rounds : List Round) (p : Pipe) (proper : IsProper r)
    (ih : (q : Pipe) → IsWritten rounds q (forward rounds q)) where
  write_prefix :
      (w : Option IoError)
      → r.write_error ≡ w
      → IsWritten (r ∷ rounds) p (after_write w (write_bytes r p) (forward rounds))
  write_prefix (some e) g = stopped_write r rounds p e
  write_prefix none g =
      goes_on r rounds p (write_bytes r p) (forward rounds (write_bytes r p))
        (ap (λ (l : List ℕ). p.written ++ l) (take_all r.write_count r.bytes (proper.writes_all g)))
        (ih (write_bytes r p))

  read_prefix :
      (x : Option ReadError)
      → r.read_error ≡ x
      → IsWritten (r ∷ rounds) p (after_read x r p (forward rounds))
  read_prefix (some timed_out) g =
      let empty : r.bytes ≡ [] = proper.has_none (λ h. cc (g, h)) in
      goes_on r rounds p p (forward rounds p)
        (sym (append-nil p.written) ∙ ap (λ (l : List ℕ). p.written ++ l) (sym empty)) (ih p)
  read_prefix (some (read_failed e)) g =
      stopped (r ∷ rounds) p (record p { close_signal = true }) (reported e) refl
  read_prefix none g = write_prefix r.write_error refl

  deadline_prefix :
      (d : Option String) → IsWritten (r ∷ rounds) p (after_deadline d r p (forward rounds))
  deadline_prefix (some e) = stopped (r ∷ rounds) p p (some e) refl
  deadline_prefix none = read_prefix r.read_error refl

-- Where no bytes come with an error of the Read, and a Write without an error writes all, a direction of
-- the forwarder has written a first part of the bytes that come in, in order and without a gap; while it is
-- running it has written all of them.
pub forward_prefix :
    (rounds : List Round) (p : Pipe) → All IsProper rounds → IsWritten rounds p (forward rounds p)
unfolding forward
forward_prefix [] p proper = ([], refl, λ h. refl)
forward_prefix (r ∷ rounds) p proper = elim (Bool-cases (p.close_signal || r.other_closed)) [
  | inl closed ↦
      rw (closed, forward) (stopped (r ∷ rounds) p (record p { close_signal = true }) none refl)
  | inr open_ ↦
      rw (open_, forward)
        (deadline_prefix r rounds p proper.0 (λ q. forward_prefix rounds q proper.1)
          r.deadline_error)
]
