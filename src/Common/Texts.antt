-- ===== src/Common/Texts.antt =====
-- Go's strings as lists of characters. The names of Kubernetes objects are ASCII, so a character is a
-- byte.
use Prim.Native.Nat.{ℕ}
use Prim.Native.Char.{Char, code}
use Prim.Native.String.append
use Prim.Native.String.{String, ◌++◌ as str_append}
use text.Mathlib.TextBridge.{of_list}
use mathlib.Core.Path.{◌≡◌, refl, ap, sym, ◌∙◌}
use mathlib.Core.Bool.{false}
use mathlib.Core.Option.{Option, none, some}
use mathlib.Core.List.{List, [], ◌∷◌, ◌++◌}
use native.Mathlib.Omega.{arith}
use clusterlink.Common.Tests.{nat_eq, if◌then◌else◌}
use clusterlink.Common.Lists.{All}

abbrev pub chars : String → List Char
chars String.[] = []
chars (String.◌∷◌ c s) = c ∷ chars s

pub chars-of_list : (l : List Char) → chars (of_list l) ≡ l
chars-of_list [] = refl
chars-of_list (c ∷ l) = ap (λ (m : List Char). c ∷ m) (chars-of_list l)

pub of_list-chars : (s : String) → of_list (chars s) ≡ s
of_list-chars String.[] = refl
of_list-chars (String.◌∷◌ c s) = ap (λ (t : String). String.◌∷◌ c t) (of_list-chars s)

pub chars-append : (s t : String) → chars (str_append s t) ≡ chars s ++ chars t
chars-append String.[] t = ap chars (append.nil t)
chars-append (String.◌∷◌ c s) t =
    ap chars (append.cons c s t) ∙ ap (λ (l : List Char). c ∷ l) (chars-append s t)

-- `strings.SplitN(s, sep, 2)`: what stands before and after the first separator.
unfoldable pub split_first : Char → List Char → Option (List Char × List Char)
split_first sep [] = none
split_first sep (c ∷ cs) =
    let rest = split_first sep cs in
    if nat_eq (code c) (code sep)
    then some ([], cs)
    else elim rest [ none ↦ none | some (before, after) ↦ some (c ∷ before, after) ]

-- The text has no character like this one.
abbrev pub Lacks : Char → String → Type 0
Lacks sep s = All (λ c. nat_eq (code c) (code sep) ≡ false) (chars s)

pub split_first-append :
    (sep : Char) (before after : List Char)
    → All (λ c. nat_eq (code c) (code sep) ≡ false) before
    → split_first sep (before ++ (sep ∷ after)) ≡ some (before, after)
unfolding split_first
split_first-append sep [] after h = ground arith
split_first-append sep (c ∷ before) after h =
    ground (arith, h.0, split_first-append sep before after h.1)

-- A text that lacks the separator, the separator, and any text.
pub split_first_lem :
    (a b : String)
    → Lacks "/" a
    → split_first "/" (chars (str_append a (str_append "/" b))) ≡ some (chars a, chars b)
split_first_lem a b h =
    ap (split_first "/") (
      chars-append a (str_append "/" b) ∙ ap (λ (l : List Char). chars a ++ l) (chars-append "/" b))
    ∙ split_first-append "/" (chars a) (chars b) h

-- Before a separator that it lacks, and after it, a text is determined.
pub separated_inj :
    (a b c d : String)
    → Lacks "/" a
    → Lacks "/" c
    → str_append a (str_append "/" b) ≡ str_append c (str_append "/" d)
    → (a ≡ c) × (b ≡ d)
separated_inj a b c d la lc q =
    let pairs : some (chars a, chars b) ≡ some (chars c, chars d) =
      sym (split_first_lem a b la)
      ∙ ap (λ (t : String). split_first "/" (chars t)) q
      ∙ split_first_lem c d lc in
    let first : chars a ≡ chars c = cc pairs in
    let second : chars b ≡ chars d = cc pairs in
    (
      sym (of_list-chars a) ∙ ap of_list first ∙ of_list-chars c,
      sym (of_list-chars b) ∙ ap of_list second ∙ of_list-chars d,
    )

-- The first character's code, or 0.
abbrev pub head_code : List Char → ℕ
head_code [] = 0
head_code (c ∷ cs) = code c
