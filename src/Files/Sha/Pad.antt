-- ===== src/Files/Sha/Pad.antt =====
-- SHA-256 by blocks, as the standard has it, and the padding of `sha256_final` of crypto.c.
use mathlib.Core.List.{append_assoc, append-nil}
use samuel_basnet_240512_st.Prelude.{
  ℕ, zero, suc, ◌+◌, ◌-◌, ◌%◌, ◌≤◌, ◌<◌, Bytes, List, [], ◌∷◌, ◌++◌, ◌≡◌, refl, sym, ap, ap₂, ◌∙◌,
  arith, ltb, length, length-append, length-replicate, take, drop, set, set-append,
  take-append_short, take_all, replicate, false, true,
}
use samuel_basnet_240512_st.Files.Sha.{
  u8, ◌>>◌, compress, sha256_transform, zero_from, put_length, pad_block,
}
use samuel_basnet_240512_st.Files.Sha.Blocks.{context}

-- The message with a bit 1, zeros up to 8 bytes in front of a multiple of 64, and its length in bits.
abbrev pub length_bytes : ℕ → Bytes
length_bytes bits =
    u8 (bits >> 56)
    ∷ u8 (bits >> 48)
    ∷ u8 (bits >> 40)
    ∷ u8 (bits >> 32)
    ∷ u8 (bits >> 24)
    ∷ u8 (bits >> 16)
    ∷ u8 (bits >> 8)
    ∷ u8 bits
    ∷ []

abbrev pub pad_zeros : ℕ → ℕ
pad_zeros n = (119 - n % 64) % 64

abbrev pub padding : ℕ → ℕ → Bytes
padding n bits = 0x80 ∷ (replicate (pad_zeros n) 0 ++ length_bytes bits)

-- The state after `k` blocks of the bytes.
abbrev pub absorb : ℕ → List ℕ → Bytes → List ℕ
absorb zero s bytes = s
absorb (suc k) s bytes = absorb k (compress s (take 64 bytes)) (drop 64 bytes)

pub drop-append_exact : (n : ℕ) (xs ys : Bytes) → length xs ≡ n → drop n (xs ++ ys) ≡ ys
drop-append_exact zero [] ys h = refl
drop-append_exact zero (x ∷ xs) ys h = absurd (omega arith)
drop-append_exact (suc n) [] ys h = absurd (omega arith)
drop-append_exact (suc n) (x ∷ xs) ys h = drop-append_exact n xs ys (omega arith)

pub absorb-block :
    (k : ℕ) (s : List ℕ) (xs ys : Bytes)
    → length xs ≡ 64
    → absorb (suc k) s (xs ++ ys) ≡ absorb k (compress s xs) ys
absorb-block k s xs ys h =
    ap₂ (λ (a b : Bytes). absorb k (compress s a) b)
      (take-append_short 64 xs ys (omega arith) ∙ take_all 64 xs (omega arith))
      (drop-append_exact 64 xs ys h)

-- `n` zeros behind the first bytes of a block.
zero_from-append :
    (n : ℕ) (p q : Bytes)
    → n ≤ length q
    → zero_from n (length p) (p ++ q) ≡ p ++ (replicate n 0 ++ drop n q)
unfolding zero_from
zero_from-append zero p q h = refl
zero_from-append (suc n) p [] h = absurd (omega arith)
zero_from-append (suc n) p (y ∷ q) h =
    ap (zero_from n (length p + 1)) (set-append p y 0 q ∙ sym (append_assoc p (0 ∷ []) q))
    ∙ (ap (λ (i : ℕ). zero_from n i ((p ++ 0 ∷ []) ++ q)) (sym (length-append p (0 ∷ [])))
        ∙ (zero_from-append n (p ++ 0 ∷ []) q (omega arith)
            ∙ append_assoc p (0 ∷ []) (replicate n 0 ++ drop n q)))

set-behind : (p r : Bytes) (i v : ℕ) → set (p ++ r) (length p + i) v ≡ p ++ set r i v
set-behind [] r i v = ap (λ (j : ℕ). set r j v) (omega arith)
set-behind (x ∷ p) r i v =
    let next : suc (length p) + i ≡ suc (length p + i) = omega arith in
    ap (λ (j : ℕ). set (x ∷ (p ++ r)) j v) next ∙ ap (◌∷◌ x) (set-behind p r i v)

-- Eight bytes that are all overwritten.
set-eight :
    (r : Bytes)
    → length r ≡ 8
    → (v0 v1 v2 v3 v4 v5 v6 v7 : ℕ)
    → set (set (set (set (set (set (set (set r 7 v7) 6 v6) 5 v5) 4 v4) 3 v3) 2 v2) 1 v1) 0 v0
      ≡ v0 ∷ v1 ∷ v2 ∷ v3 ∷ v4 ∷ v5 ∷ v6 ∷ v7 ∷ []
set-eight [] eq v0 v1 v2 v3 v4 v5 v6 v7 = absurd (omega arith)
set-eight (a ∷ []) eq v0 v1 v2 v3 v4 v5 v6 v7 = absurd (omega arith)
set-eight (a ∷ b ∷ []) eq v0 v1 v2 v3 v4 v5 v6 v7 = absurd (omega arith)
set-eight (a ∷ b ∷ c ∷ []) eq v0 v1 v2 v3 v4 v5 v6 v7 = absurd (omega arith)
set-eight (a ∷ b ∷ c ∷ d ∷ []) eq v0 v1 v2 v3 v4 v5 v6 v7 = absurd (omega arith)
set-eight (a ∷ b ∷ c ∷ d ∷ e ∷ []) eq v0 v1 v2 v3 v4 v5 v6 v7 = absurd (omega arith)
set-eight (a ∷ b ∷ c ∷ d ∷ e ∷ f ∷ []) eq v0 v1 v2 v3 v4 v5 v6 v7 = absurd (omega arith)
set-eight (a ∷ b ∷ c ∷ d ∷ e ∷ f ∷ g ∷ []) eq v0 v1 v2 v3 v4 v5 v6 v7 = absurd (omega arith)
set-eight (a ∷ b ∷ c ∷ d ∷ e ∷ f ∷ g ∷ h ∷ []) eq v0 v1 v2 v3 v4 v5 v6 v7 = refl
set-eight (a ∷ b ∷ c ∷ d ∷ e ∷ f ∷ g ∷ h ∷ x ∷ r) eq v0 v1 v2 v3 v4 v5 v6 v7 = absurd (omega arith)

set-length :
    (p r : Bytes) (k i v : ℕ) → length p ≡ 56 → k ≡ 56 + i → set (p ++ r) k v ≡ p ++ set r i v
set-length p r k i v h e = ap (λ (j : ℕ). set (p ++ r) j v) (omega arith) ∙ set-behind p r i v

pub put_length-append :
    (bits : ℕ) (p r : Bytes)
    → length p ≡ 56
    → length r ≡ 8
    → put_length bits (p ++ r) ≡ p ++ length_bytes bits
unfolding put_length
put_length-append bits p r h e =
    let r7 = set r 7 (u8 bits) in
    let r6 = set r7 6 (u8 (bits >> 8)) in
    let r5 = set r6 5 (u8 (bits >> 16)) in
    let r4 = set r5 4 (u8 (bits >> 24)) in
    let r3 = set r4 3 (u8 (bits >> 32)) in
    let r2 = set r3 2 (u8 (bits >> 40)) in
    let r1 = set r2 1 (u8 (bits >> 48)) in
    rw
      (
        set-length p r 63 7 (u8 bits) h refl,
        set-length p r7 62 6 (u8 (bits >> 8)) h refl,
        set-length p r6 61 5 (u8 (bits >> 16)) h refl,
        set-length p r5 60 4 (u8 (bits >> 24)) h refl,
        set-length p r4 59 3 (u8 (bits >> 32)) h refl,
        set-length p r3 58 2 (u8 (bits >> 40)) h refl,
        set-length p r2 57 1 (u8 (bits >> 48)) h refl,
        set-length p r1 56 0 (u8 (bits >> 56)) h refl,
      )
      (ap (λ (x : Bytes). p ++ x)
        (set-eight r e (u8 (bits >> 56)) (u8 (bits >> 48)) (u8 (bits >> 40)) (u8 (bits >> 32))
          (u8 (bits >> 24)) (u8 (bits >> 16)) (u8 (bits >> 8)) (u8 bits)))

pub length-drop : (n : ℕ) (xs : Bytes) → length (drop n xs) + n ≡ length xs + (n - length xs)
length-drop zero xs = omega arith
length-drop (suc n) [] = omega arith
length-drop (suc n) (x ∷ xs) = omega (arith, length-drop n xs)

drop_end : (n : ℕ) (xs : Bytes) → length xs ≤ n → drop n xs ≡ []
drop_end zero [] h = refl
drop_end zero (x ∷ xs) h = absurd (omega arith)
drop_end (suc n) [] h = refl
drop_end (suc n) (x ∷ xs) h = drop_end n xs (omega arith)

module _ (t q : Bytes) (y : ℕ) (b : ℕ) (s : List ℕ) (h : length t + (length q + 1) ≡ 64) where
  -- The block with its mark, zeros up to `n` bytes, and the rest.
  marked :
      (n : ℕ)
      → n ≤ length q
      → zero_from n (length t + 1) (set (t ++ y ∷ q) (length t) 0x80)
        ≡ (t ++ 0x80 ∷ replicate n 0) ++ drop n q
  marked n le =
      let p = t ++ 0x80 ∷ [] in
      ap (zero_from n (length t + 1)) (set-append t y 0x80 q ∙ sym (append_assoc t (0x80 ∷ []) q))
      ∙ (ap (λ (i : ℕ). zero_from n i (p ++ q)) (sym (length-append t (0x80 ∷ [])))
          ∙ (zero_from-append n p q le
              ∙ (sym (append_assoc p (replicate n 0) (drop n q))
                  ∙ ap (λ (x : Bytes). x ++ drop n q)
                      (append_assoc t (0x80 ∷ []) (replicate n 0)))))

  pub pad_block-short :
      length t < 56
      → pad_block (context t (y ∷ q) b s) ≡ record {
        block = (t ++ 0x80 ∷ replicate (55 - length t) 0) ++ drop (55 - length t) q;
        datalen = length t;
        bitlen = b;
        state = s;
      }
  unfolding pad_block
  pad_block-short lt =
      let short : ltb (length t) 56 ≡ true = ground arith in
      let left : 56 - (length t + 1) ≡ 55 - length t = omega arith in
      rw (short, left, marked (55 - length t) (omega arith)) refl

  abbrev pub first_block : Bytes
  first_block = t ++ 0x80 ∷ replicate (63 - length t) 0

  pub pad_block-long :
      56 ≤ length t
      → pad_block (context t (y ∷ q) b s) ≡ record {
        block = replicate 56 0 ++ drop 56 first_block;
        datalen = length t;
        bitlen = b;
        state = compress s first_block;
      }
  unfolding pad_block sha256_transform
  pad_block-long le =
      let long : ltb (length t) 56 ≡ false = ground arith in
      let left : 64 - (length t + 1) ≡ 63 - length t = omega arith in
      let all : drop (63 - length t) q ≡ [] = drop_end (63 - length t) q (omega arith) in
      let whole : length first_block ≡ 64 = omega (
        arith,
        length-append t (0x80 ∷ replicate (63 - length t) 0),
        length-replicate {A = ℕ} (63 - length t) 0,
      ) in
      rw (long, left, marked (63 - length t) (omega arith), all, append-nil)
        (ap
          (λ (x : Bytes). record {
            block = x;
            datalen = length t;
            bitlen = b;
            state = compress s first_block;
          })
          (zero_from-append 56 [] first_block (omega arith)))
