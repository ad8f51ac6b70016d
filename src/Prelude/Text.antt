-- ===== src/Prelude/Text.antt =====
-- C strings as lists of bytes, without the terminating NUL, and the functions of <string.h>.
use Prim.Native.Nat.{ℕ}
use Prim.Native.Char.{code}
use Prim.Native.String.{String}
use mathlib.Core.Path.{◌≡◌, refl}
use mathlib.Core.Logic.{◌↔◌}
use mathlib.Core.Bool.{Bool, true, false, ◌&&◌}
use mathlib.Core.List.{List, [], ◌∷◌}
use native.Mathlib.Omega.{arith}
use samuel_basnet_240512_st.Prelude.Tests.{◌==◌, if◌then◌else◌}
use samuel_basnet_240512_st.Prelude.Lists.{take}

abbrev pub Bytes : Type 0
Bytes = List ℕ

-- A string literal of the source, which is ASCII.
abbrev pub codes : String → Bytes
codes String.[] = []
codes (String.◌∷◌ c s) = code c ∷ codes s

-- strcmp(a, b) == 0
unfoldable pub str_eq : Bytes → Bytes → Bool
str_eq [] [] = true
str_eq [] (y ∷ ys) = false
str_eq (x ∷ xs) [] = false
str_eq (x ∷ xs) (y ∷ ys) = x == y && str_eq xs ys

-- strncmp(a, b, n) == 0
unfoldable pub strn_eq : ℕ → Bytes → Bytes → Bool
unfolding str_eq
strn_eq n a b = str_eq (take n a) (take n b)

-- What a C string function sees of a buffer: the bytes in front of the first NUL.
unfoldable pub c_str : Bytes → Bytes
c_str [] = []
c_str (x ∷ xs) = if x == 0 then [] else x ∷ c_str xs

pub str_eq_iff : (a b : Bytes) → (str_eq a b ≡ true) ↔ (a ≡ b)
unfolding str_eq
str_eq_iff [] [] = ground arith
str_eq_iff [] (y ∷ ys) = ground arith
str_eq_iff (x ∷ xs) [] = ground arith
str_eq_iff (x ∷ xs) (y ∷ ys) = ground (arith, str_eq_iff xs ys)

pub str_eq_refl : (a : Bytes) → str_eq a a ≡ true
str_eq_refl a = (str_eq_iff a a).1 refl

pub strn_eq_iff : (n : ℕ) (a b : Bytes) → (strn_eq n a b ≡ true) ↔ (take n a ≡ take n b)
unfolding strn_eq
strn_eq_iff n a b = str_eq_iff (take n a) (take n b)

pub strn_eq_refl : (n : ℕ) (a : Bytes) → strn_eq n a a ≡ true
unfolding strn_eq
strn_eq_refl n a = str_eq_refl (take n a)
