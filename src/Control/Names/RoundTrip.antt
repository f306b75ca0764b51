-- ===== src/Control/Names/RoundTrip.antt =====
-- `Parse` undoes `Get`.
use Prim.Native.Char.{Char, code}
use text.Mathlib.TextBridge.{of_list}
use clusterlink.Common.Texts.{chars, chars-of_list, of_list-chars}
use clusterlink.Common.{
  ℕ, suc, ◌+◌, ◌^◌, ◌<◌, ◌≡◌, ◌≢◌, refl, ap, ap₂, ◌∙◌, String, false, ◌||◌, some, List, [], ◌∷◌,
  ◌++◌, arith, nat_eq, leb, length, length-append, eq_iff, All, All-map,
}
use clusterlink.Control.Names.{
  print_decimal, atoi, cut, take, drop, slice_name, parse_rest, parse_chars, parse_name,
}
use clusterlink.Control.Names.Decimals.{IsDigit, print_decimal-IsDigit, atoi-print_decimal}

-- A text without a dash is cut at the dash that follows it.
cut-append :
    (before after : List Char)
    → All (λ c. code c ≢ 45) before
    → cut (before ++ ("-" ∷ after)) ≡ some (before, after)
unfolding cut
cut-append [] after h = refl
cut-append (c ∷ before) after h = ground (arith, h.0, cut-append before after h.1)

take-append : (xs ys : List Char) → take (length xs) (xs ++ ys) ≡ xs
take-append [] ys = refl
take-append (x ∷ xs) ys = ap (λ (l : List Char). x ∷ l) (take-append xs ys)

drop-append : (xs ys : List Char) (c : Char) → drop (length xs + 1) (xs ++ (c ∷ ys)) ≡ ys
drop-append [] ys c = refl
drop-append (x ∷ xs) ys c =
    let next : suc (length xs) + 1 ≡ suc (length xs + 1) = omega arith in
    rw next (drop-append xs ys c)

-- The third component: the import's name of the given length, a dash, and the other name.
parse_rest-names :
    (import_name dataplane_name : String)
    → import_name ≢ ""
    → dataplane_name ≢ ""
    → parse_rest (length (chars import_name)) (chars import_name ++ ("-" ∷ chars dataplane_name))
      ≡ some (import_name, dataplane_name)
parse_rest-names String.[] d a b = absurd (a refl)
parse_rest-names (String.◌∷◌ c s) String.[] a b = absurd (b refl)
parse_rest-names (String.◌∷◌ c s) (String.◌∷◌ d t) a b =
    let name : List Char = c ∷ chars s in
    let rest : List Char = d ∷ chars t in
    let fits : (nat_eq (length name) 0 || leb (length (name ++ ("-" ∷ rest))) (length name))
        ≡ false =
      ground (arith, length-append {0} name ("-" ∷ rest)) in
    rw (fits, drop-append name rest "-", take-append (chars s) ("-" ∷ rest))
      (ap₂ (λ (x y : String). some (x, y)) (of_list-chars (String.◌∷◌ c s))
        (of_list-chars (String.◌∷◌ d t)))

length-chars-pos : (s : String) → s ≢ "" → 0 < length (chars s)
length-chars-pos String.[] ne = absurd (ne refl)
length-chars-pos (String.◌∷◌ c s) ne = omega arith

no_dash : (cs : List Char) → All IsDigit cs → All (λ c. code c ≢ 45) cs
no_dash cs h = All-map (λ c digit same. absurd (omega (arith, digit.0))) cs h

chars-slice_name :
    (import_name dataplane_name : String)
    → chars (slice_name import_name dataplane_name)
      ≡ chars "clusterlink-"
        ++ (print_decimal (length (chars import_name))
            ++ ("-" ∷ (chars import_name ++ ("-" ∷ chars dataplane_name))))
unfolding slice_name
chars-slice_name import_name dataplane_name = chars-of_list _

parse_chars_lem :
    (l first more second third : List Char) (n : ℕ)
    → cut l ≡ some (first, more)
    → cut more ≡ some (second, third)
    → of_list first ≡ "clusterlink"
    → atoi second ≡ some n
    → parse_chars l ≡ parse_rest n third
unfolding parse_chars
parse_chars_lem l first more second third n a b c d =
    ground (arith, eq_iff (of_list first) "clusterlink")

-- The name of an import's endpoint slice is parsed to the two names that it was made of, if neither is
-- empty and the length of the import's name is in the range of an int.
pub parse_name-slice_name :
    (import_name dataplane_name : String)
    → import_name ≢ ""
    → dataplane_name ≢ ""
    → length (chars import_name) < 2 ^ 63
    → parse_name (slice_name import_name dataplane_name) ≡ some (import_name, dataplane_name)
unfolding parse_name
parse_name-slice_name import_name dataplane_name a b small =
    let n : ℕ = length (chars import_name) in
    let rest : List Char = chars import_name ++ ("-" ∷ chars dataplane_name) in
    let e = chars-slice_name import_name dataplane_name in
    let first : cut (chars "clusterlink-" ++ (print_decimal n ++ ("-" ∷ rest)))
        ≡ some (chars "clusterlink", print_decimal n ++ ("-" ∷ rest)) =
      cut-append (chars "clusterlink") (print_decimal n ++ ("-" ∷ rest)) (omega arith) in
    let second =
      cut-append (print_decimal n) rest (no_dash (print_decimal n) (print_decimal-IsDigit n)) in
    let number = atoi-print_decimal n (length-chars-pos import_name a) small in
    ap parse_chars e
    ∙ parse_chars_lem (chars "clusterlink-" ++ (print_decimal n ++ ("-" ∷ rest))) _ _ _ _ n first
        second refl number
    ∙ parse_rest-names import_name dataplane_name a b
