-- ===== src/Common/Eqs.antt =====
-- Go's `==` on map keys, as an interface with its law.
use Prim.Native.Nat.{ℕ}
use Prim.Native.String.{String}
use mathlib.Core.Path.{◌≡◌, refl}
use mathlib.Core.Logic.{◌↔◌}
use mathlib.Core.Bool.{Bool, true}
use text.Mathlib.TextEquality.{eq_iff}
use text.Mathlib.Text.{◌==◌ as str_eq}
use clusterlink.Common.Tests.{nat_eq, nat_eq_iff}

-- The types whose values may be the keys of a map.
pub record MapKey {ℓ} (K : Type ℓ) : Type ℓ where
  pub same_key : K → K → Bool
  pub same_key_iff : (j k : K) → (same_key j k ≡ true) ↔ (j ≡ k)

instance abbrev pub string_eq : MapKey String
string_eq = record { same_key = str_eq; same_key_iff = eq_iff }

instance abbrev pub ℕ_eq : MapKey ℕ
ℕ_eq = record { same_key = nat_eq; same_key_iff = nat_eq_iff }

module _ {ℓ} {K : Type ℓ} ⦃key : MapKey K⦄ where
  infix 50 ◌==◌
  abbrev pub ◌==◌ : K → K → Bool
  j == k = key.same_key j k

  pub ==_refl : (k : K) → (k == k) ≡ true
  ==_refl k = (key.same_key_iff k k).1 refl
