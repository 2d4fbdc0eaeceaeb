-- ===== src/Base/Text.antt =====
-- C strings as the list of their bytes before the terminating NUL, with `strcmp` and `strncmp`.
use Prim.Native.Nat.{ℕ, compare, Ordering}
use Prim.Native.Char.{code}
use Prim.Native.String.{String}
use mathlib.Core.Path.{◌≡◌, refl}
use mathlib.Core.Logic.{◌↔◌}
use mathlib.Core.Bool.{Bool, true, false, ◌&&◌}
use mathlib.Core.List.{List, [], ◌∷◌}
use native.Mathlib.Omega.{arith}

abbrev pub Str : Type 0
Str = List ℕ

abbrev pub codes : String → Str
codes String.[] = []
codes (String.◌∷◌ c s) = code c ∷ codes s

abbrev same_byte : ℕ → ℕ → Bool
same_byte a b = elim (compare a b) [ Ordering.eq ↦ true | _ ↦ false ]

-- `strcmp(a, b) == 0`
unfoldable pub str_eq : Str → Str → Bool
str_eq [] [] = true
str_eq (x ∷ xs) (y ∷ ys) = same_byte x y && str_eq xs ys
str_eq _ _ = false

pub str_eq_iff : (a b : Str) → (str_eq a b ≡ true) ↔ (a ≡ b)
unfolding str_eq
str_eq_iff (x ∷ a) (y ∷ b) = ground (arith, str_eq_iff a b)
str_eq_iff _ _ = ground arith

pub str_eq_refl : (a : Str) → str_eq a a ≡ true
str_eq_refl a = (str_eq_iff a a).1 refl

-- `strncmp(s, p, strlen(p)) == 0`
unfoldable pub starts_with : Str → Str → Bool
starts_with [] s = true
starts_with (x ∷ p) (y ∷ s) = same_byte x y && starts_with p s
starts_with _ _ = false
