-- ===== src/Control/Names/Decimals.antt =====
-- A printed number is read back.
use Prim.Native.Char.{Char, code}
use clusterlink.Common.{
  ℕ, zero, suc, ◌+◌, ◌*◌, ◌/◌, ◌%◌, ◌^◌, ◌<◌, ◌≤◌, ◌≡◌, ◌≢◌, refl, ap, ◌∙◌, inl, inr, some, List,
  [], ◌∷◌, arith, nat_eq, Bool-cases, All,
}
use clusterlink.Control.Names.{
  digit_char, digit_of, digits, print_decimal, read_digits, in_range, atoi,
}

digit_of-digit_char : (d : ℕ) → d < 10 → digit_of (digit_char d) ≡ some d
digit_of-digit_char zero h = refl
digit_of-digit_char (suc zero) h = refl
digit_of-digit_char (suc (suc zero)) h = refl
digit_of-digit_char (suc (suc (suc zero))) h = refl
digit_of-digit_char (suc (suc (suc (suc zero)))) h = refl
digit_of-digit_char (suc (suc (suc (suc (suc zero))))) h = refl
digit_of-digit_char (suc (suc (suc (suc (suc (suc zero)))))) h = refl
digit_of-digit_char (suc (suc (suc (suc (suc (suc (suc zero))))))) h = refl
digit_of-digit_char (suc (suc (suc (suc (suc (suc (suc (suc zero)))))))) h = refl
digit_of-digit_char (suc (suc (suc (suc (suc (suc (suc (suc (suc zero))))))))) h = refl
digit_of-digit_char (suc (suc (suc (suc (suc (suc (suc (suc (suc (suc d)))))))))) h =
    absurd (omega arith)

-- A digit's character is a digit, and so neither a sign nor a dash.
abbrev pub IsDigit : Char → Type 0
IsDigit c = (48 ≤ code c) × (code c ≤ 57)

digit_char-IsDigit : (d : ℕ) → d < 10 → IsDigit (digit_char d)
digit_char-IsDigit d h = ground (arith, digit_of-digit_char d h)

read_step :
    (n d : ℕ) (cs : List Char)
    → d < 10
    → read_digits n (digit_char d ∷ cs) ≡ read_digits (n * 10 + d) cs
unfolding read_digits
read_step n d cs h = rw (digit_of-digit_char d h, read_digits) refl

-- The printed digits are read first, and then the others.
read_digits-digits :
    (fuel n : ℕ) (acc : List Char)
    → n < fuel
    → read_digits 0 (digits fuel n acc) ≡ read_digits n acc
unfolding digits
read_digits-digits zero n acc h = absurd (omega arith)
read_digits-digits (suc fuel) n acc h = elim (Bool-cases (nat_eq (n / 10) 0)) [
  | inl last ↦
      let small : 0 * 10 + n % 10 ≡ n = ground arith in
      rw last (read_step 0 (n % 10) acc (omega arith) ∙ ap (λ (k : ℕ). read_digits k acc) small)
  | inr more ↦
      let small : n / 10 * 10 + n % 10 ≡ n = omega arith in
      rw more (
        read_digits-digits fuel (n / 10) (digit_char (n % 10) ∷ acc) (ground arith)
        ∙ read_step (n / 10) (n % 10) acc (omega arith)
        ∙ ap (λ (k : ℕ). read_digits k acc) small)
]

digits-IsDigit : (fuel n : ℕ) (acc : List Char) → All IsDigit acc → All IsDigit (digits fuel n acc)
unfolding digits
digits-IsDigit zero n acc h = h
digits-IsDigit (suc fuel) n acc h =
    let d = digit_char-IsDigit (n % 10) (omega arith) in
    elim (Bool-cases (nat_eq (n / 10) 0)) [
      | inl last ↦ rw last (d, h)
      | inr more ↦ rw more (digits-IsDigit fuel (n / 10) (digit_char (n % 10) ∷ acc) (d, h))
    ]

-- The text of a number has only digits.
pub print_decimal-IsDigit : (n : ℕ) → All IsDigit (print_decimal n)
unfolding print_decimal
print_decimal-IsDigit n = digits-IsDigit (suc n) n [] tt

atoi_digits : (cs : List Char) → All IsDigit cs → cs ≢ [] → atoi cs ≡ in_range (read_digits 0 cs)
unfolding atoi
atoi_digits [] h ne = absurd (ne refl)
atoi_digits (c ∷ cs) h ne = ground (arith, h.0)

read_none : (cs : List Char) (n k : ℕ) → read_digits n cs ≡ some k → k ≢ n → cs ≢ []
unfolding read_digits
read_none [] n k h other = absurd (other (cc))
read_none (c ∷ cs) n k h other = cc

pub atoi-print_decimal : (n : ℕ) → 0 < n → n < 2 ^ 63 → atoi (print_decimal n) ≡ some n
unfolding print_decimal read_digits
atoi-print_decimal n pos small =
    let q : read_digits 0 (print_decimal n) ≡ some n =
      read_digits-digits (suc n) n [] (omega arith) in
    atoi_digits (print_decimal n) (print_decimal-IsDigit n)
      (read_none (print_decimal n) 0 n q (omega arith))
    ∙ ap in_range q
    ∙ ground arith
