-- ===== src/Control/Names.antt =====
-- The names of import endpoint slices: importEndpointSliceName of pkg/controlplane/control/manager.go.
-- Names of Kubernetes objects are ASCII, so a character is a byte.
pub mod Decimals
pub mod RoundTrip
use Prim.Native.Char.{Char, code}
use Prim.Native.String
use text.Mathlib.TextBridge.{of_list}
use clusterlink.Common.Texts.{chars}
use clusterlink.Common.{
  ℕ, zero, suc, ◌+◌, ◌-◌, ◌*◌, ◌/◌, ◌%◌, ◌^◌, String, Bool, true, false, not, ◌&&◌, ◌||◌, Option,
  none, some, List, [], ◌∷◌, ◌++◌, nat_eq, ltb, leb, length, if◌then◌else◌, str_eq,
}

-- The character of a digit, and the digit of a character.
abbrev pub digit_char : ℕ → Char
digit_char zero = "0"
digit_char (suc zero) = "1"
digit_char (suc (suc zero)) = "2"
digit_char (suc (suc (suc zero))) = "3"
digit_char (suc (suc (suc (suc zero)))) = "4"
digit_char (suc (suc (suc (suc (suc zero))))) = "5"
digit_char (suc (suc (suc (suc (suc (suc zero)))))) = "6"
digit_char (suc (suc (suc (suc (suc (suc (suc zero))))))) = "7"
digit_char (suc (suc (suc (suc (suc (suc (suc (suc zero)))))))) = "8"
digit_char (suc (suc (suc (suc (suc (suc (suc (suc (suc n))))))))) = "9"

abbrev pub digit_of : Char → Option ℕ
digit_of c = if leb 48 (code c) && leb (code c) 57 then some (code c - 48) else none

-- `%d`, with fuel: more than the number is enough.
unfoldable pub digits : ℕ → ℕ → List Char → List Char
digits zero n acc = acc
digits (suc fuel) n acc =
    let rest = digits fuel (n / 10) (digit_char (n % 10) ∷ acc) in
    if nat_eq (n / 10) 0 then digit_char (n % 10) ∷ acc else rest

unfoldable pub print_decimal : ℕ → List Char
print_decimal n = digits (suc n) n []

-- The digits of `strconv.Atoi`; it also takes a sign, but no text with a dash gets here.
unfoldable pub read_digits : ℕ → List Char → Option ℕ
read_digits n [] = some n
read_digits n (c ∷ cs) = elim (digit_of c) [ none ↦ none | some d ↦ read_digits (n * 10 + d) cs ]

abbrev pub in_range : Option ℕ → Option ℕ
in_range none = none
in_range (some n) = if ltb n (2 ^ 63) then some n else none

unfoldable pub atoi : List Char → Option ℕ
atoi [] = none
atoi (c ∷ cs) =
    if nat_eq (code c) 43
    then elim cs [ [] ↦ none | d ∷ ds ↦ in_range (read_digits 0 (d ∷ ds)) ]
    else in_range (read_digits 0 (c ∷ cs))

-- What stands before and after the first dash.
unfoldable pub cut : List Char → Option (List Char × List Char)
cut [] = none
cut (c ∷ cs) =
    let rest = cut cs in
    if nat_eq (code c) 45
    then some ([], cs)
    else elim rest [ none ↦ none | some (before, after) ↦ some (c ∷ before, after) ]

abbrev pub take {ℓ} : {A : Type ℓ} → ℕ → List A → List A
take zero xs = []
take (suc n) [] = []
take (suc n) (x ∷ xs) = x ∷ take n xs

abbrev pub drop {ℓ} : {A : Type ℓ} → ℕ → List A → List A
drop zero xs = xs
drop (suc n) [] = []
drop (suc n) (x ∷ xs) = drop n xs

-- `Get`
unfoldable pub slice_name : String → String → String
unfolding print_decimal
slice_name import_name dataplane_name = of_list (
    chars "clusterlink-"
    ++ (print_decimal (length (chars import_name))
        ++ (chars "-" ++ (chars import_name ++ (chars "-" ++ chars dataplane_name)))))

-- The third component of a name, with the length that the second stands for.
abbrev pub parse_rest : ℕ → List Char → Option (String × String)
parse_rest n text = if nat_eq n 0 || leb (length text) n then none else elim (drop (n + 1) text) [
  | [] ↦ none
  | c ∷ cs ↦ some (of_list (take n text), of_list (c ∷ cs))
]

unfoldable pub parse_chars : List Char → Option (String × String)
unfolding cut atoi
parse_chars name = elim (cut name) [
  | none ↦ none
  | some (first, more) ↦ elim (cut more) [
    | none ↦ none
    | some (second, third) ↦
        if not (str_eq (of_list first) "clusterlink")
        then none
        else elim (atoi second) [ none ↦ none | some n ↦ parse_rest n third ]
  ]
]

-- `Parse`
unfoldable pub parse_name : String → Option (String × String)
unfolding parse_chars
parse_name name = parse_chars (chars name)
