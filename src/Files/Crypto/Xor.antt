-- ===== src/Files/Crypto/Xor.antt =====
-- The XOR cipher undoes itself: exclusive or with the same byte twice, index by index.
use Prim.Native.Nat.{bit_xor, bit_xor-bitwise, digits, differ}
use samuel_basnet_240512_st.Prelude.{
  ℕ, zero, suc, ◌+◌, ◌*◌, ◌/◌, ◌%◌, ◌≤◌, ◌<◌, Bytes, [], ◌∷◌, ◌++◌, ◌≡◌, refl, ap₂, ap, ◌∙◌, get_or,
  length, arith,
}
use samuel_basnet_240512_st.Files.Sha.{sha256}
use samuel_basnet_240512_st.Files.Crypto.{hash_len, xor_from, xor_cipher}

-- The recursion on digits that `bit_xor` stands for does not depend on its fuel.
abbrev xor_digits : ℕ → ℕ → ℕ → ℕ
xor_digits n a b = digits (λ y. y) differ n a b

xor_digits_fuel : (n m a b : ℕ) → a ≤ n → a ≤ m → xor_digits n a b ≡ xor_digits m a b
xor_digits_fuel zero zero a b p q = refl
xor_digits_fuel zero (suc m) zero b p q = refl
xor_digits_fuel zero (suc m) (suc a) b p q = absurd (omega arith)
xor_digits_fuel (suc n) zero zero b p q = refl
xor_digits_fuel (suc n) zero (suc a) b p q = absurd (omega arith)
xor_digits_fuel (suc n) (suc m) zero b p q = refl
xor_digits_fuel (suc n) (suc m) (suc a) b p q =
    omega (arith, xor_digits_fuel n m (suc a / 2) (b / 2) (omega arith) (omega arith))

zero-bit_xor : (b : ℕ) → bit_xor 0 b ≡ b
zero-bit_xor b = bit_xor-bitwise 0 b

differ_digits :
    (x y : ℕ) → x < 2 → y < 2 → (differ x y < 2) × (differ (differ x y) y ≡ x) × (differ 0 y ≡ y)
differ_digits zero zero p q = (omega arith, refl, refl)
differ_digits zero (suc zero) p q = (omega arith, refl, refl)
differ_digits (suc zero) zero p q = (omega arith, refl, refl)
differ_digits (suc zero) (suc zero) p q = (omega arith, refl, refl)
differ_digits zero (suc (suc y)) p q = absurd (omega arith)
differ_digits (suc (suc x)) y p q = absurd (omega arith)
differ_digits (suc zero) (suc (suc y)) p q = absurd (omega arith)

-- The lowest digit and the rest.
bit_xor_step : (a b : ℕ) → bit_xor a b ≡ bit_xor (a / 2) (b / 2) * 2 + differ (a % 2) (b % 2)
bit_xor_step zero b = omega (
  arith,
  zero-bit_xor b,
  zero-bit_xor (b / 2),
  differ_digits 0 (b % 2) (omega arith) (omega arith),
)
bit_xor_step (suc a) b = omega (
  arith,
  bit_xor-bitwise (suc a) b,
  bit_xor-bitwise (suc a / 2) (b / 2),
  xor_digits_fuel a (suc a / 2) (suc a / 2) (b / 2) (omega arith) (omega arith),
)

xor_twice_fuel : (n a b : ℕ) → a ≤ n → b ≤ n → bit_xor (bit_xor a b) b ≡ a
xor_twice_fuel zero zero zero p q = refl
xor_twice_fuel zero (suc a) b p q = absurd (omega arith)
xor_twice_fuel zero zero (suc b) p q = absurd (omega arith)
xor_twice_fuel (suc n) a b p q =
    let (small, back, _) = differ_digits (a % 2) (b % 2) (omega arith) (omega arith) in
    let high : bit_xor a b / 2 ≡ bit_xor (a / 2) (b / 2) = omega (arith, bit_xor_step a b) in
    let low : bit_xor a b % 2 ≡ differ (a % 2) (b % 2) = omega (arith, bit_xor_step a b) in
    bit_xor_step (bit_xor a b) b
    ∙ rw (high, low, back)
        (omega (arith, xor_twice_fuel n (a / 2) (b / 2) (omega arith) (omega arith)))

xor_twice : (a b : ℕ) → bit_xor (bit_xor a b) b ≡ a
xor_twice a b = xor_twice_fuel (a + b) a b (omega arith) (omega arith)

pub length-xor_from : (key : Bytes) (i : ℕ) (b : Bytes) → length (xor_from key i b) ≡ length b
unfolding xor_from
length-xor_from key i [] = refl
length-xor_from key i (x ∷ b) = ap suc (length-xor_from key (i + 1) b)

pub xor_from-twice : (key : Bytes) (i : ℕ) (b : Bytes) → xor_from key i (xor_from key i b) ≡ b
unfolding xor_from
xor_from-twice key i [] = refl
xor_from-twice key i (x ∷ b) =
    ap₂ ◌∷◌ (xor_twice x (get_or key (i % hash_len) 0)) (xor_from-twice key (i + 1) b)

pub xor_from-append :
    (key : Bytes) (i : ℕ) (a b : Bytes)
    → xor_from key i (a ++ b) ≡ xor_from key i a ++ xor_from key (i + length a) b
unfolding xor_from
xor_from-append key i [] b = ap (λ k. xor_from key k b) (omega arith)
xor_from-append key i (x ∷ a) b = ap (◌∷◌ (bit_xor x (get_or key (i % hash_len) 0))) (
    xor_from-append key (i + 1) a b
    ∙ ap (λ k. xor_from key (i + 1) a ++ xor_from key k b) (omega arith))

-- The key stream has period 32.
pub xor_from-period :
    (key : Bytes) (i j : ℕ) (b : Bytes)
    → i % hash_len ≡ j % hash_len
    → xor_from key i b ≡ xor_from key j b
unfolding xor_from
xor_from-period key i j [] e = refl
xor_from-period key i j (x ∷ b) e =
    ap₂ ◌∷◌ (ap (λ k. bit_xor x (get_or key k 0)) e)
      (xor_from-period key (i + 1) (j + 1) b (omega arith))

-- Encrypting twice with the same passphrase gives any buffer back, byte for byte.
pub xor_cipher-twice :
    (buffer passphrase : Bytes) → xor_cipher (xor_cipher buffer passphrase) passphrase ≡ buffer
unfolding xor_cipher
xor_cipher-twice buffer passphrase = xor_from-twice (sha256 passphrase) 0 buffer

pub length-xor_cipher :
    (buffer passphrase : Bytes) → length (xor_cipher buffer passphrase) ≡ length buffer
unfolding xor_cipher
length-xor_cipher buffer passphrase = length-xor_from (sha256 passphrase) 0 buffer

-- Deciphering a cipher that something was appended to.
pub xor_cipher-appended :
    (old new passphrase : Bytes)
    → xor_cipher (xor_cipher old passphrase ++ new) passphrase
      ≡ old ++ xor_from (sha256 passphrase) (length old) new
unfolding xor_cipher
xor_cipher-appended old new passphrase =
    let key = sha256 passphrase in
    xor_from-append key 0 (xor_from key 0 old) new
    ∙ ap₂ ◌++◌ (xor_from-twice key 0 old)
        (ap (λ k. xor_from key k new) (omega (arith, length-xor_from key 0 old)))
