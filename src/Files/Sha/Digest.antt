-- ===== src/Files/Sha/Digest.antt =====
-- `sha256` of crypto.c, which takes the message byte by byte, against SHA-256 by blocks.
use mathlib.Core.List.{append_assoc}
use samuel_basnet_240512_st.Prelude.{
  ℕ, zero, suc, ◌+◌, ◌-◌, ◌*◌, ◌/◌, ◌%◌, ◌^◌, ◌≤◌, ◌<◌, ◌≢◌, Bytes, List, [], ◌∷◌, ◌++◌, ◌≡◌, refl,
  sym, ap, ap₂, ◌∙◌, arith, ltb, length, length-append, length-replicate, length-take, take, drop,
  take_all, replicate, inl, inr, Bool-cases,
}
use samuel_basnet_240512_st.Files.Sha.{
  Context, compress, sha256_transform, initial_state, sha256_init, sha256_update, put_length,
  pad_block, word_bytes, sha256_final, sha256,
}
use samuel_basnet_240512_st.Files.Sha.Blocks.{context, update-part, update-full, update-append}
use samuel_basnet_240512_st.Files.Sha.Pad.{
  length_bytes, pad_zeros, padding, absorb, absorb-block, put_length-append, length-drop,
  pad_block-short, first_block, pad_block-long,
}

replicate-append : (n m z : ℕ) → replicate n z ++ replicate m z ≡ replicate (n + m) z
replicate-append zero m z = ap (λ (k : ℕ). replicate k z) (omega arith)
replicate-append (suc n) m z =
    let next : suc (n + m) ≡ suc n + m = omega arith in
    ap (◌∷◌ z) (replicate-append n m z) ∙ ap (λ (k : ℕ). replicate k z) next

final-padded :
    (ctx : Context) (p r : Bytes) (d b : ℕ) (s : List ℕ)
    → pad_block ctx ≡ record { block = p ++ r; datalen = d; bitlen = b; state = s }
    → length p ≡ 56
    → length r ≡ 8
    → sha256_final ctx ≡ word_bytes (compress s (p ++ length_bytes ((b + d * 8) % 2 ^ 64)))
unfolding sha256_final sha256_transform
final-padded ctx p r d b s e lp lr =
    ap
      (λ (x : Context).
        word_bytes (compress x.state (put_length ((x.bitlen + x.datalen * 8) % 2 ^ 64) x.block)))
      e
    ∙ ap (λ (x : Bytes). word_bytes (compress s x))
        (put_length-append ((b + d * 8) % 2 ^ 64) p r lp lr)

module _ (t q : Bytes) (y b : ℕ) (s : List ℕ) (h : length t + (length q + 1) ≡ 64) where
  abbrev bits : ℕ
  bits = (b + length t * 8) % 2 ^ 64

  final-short :
      length t < 56
      → sha256_final (context t (y ∷ q) b s)
        ≡ word_bytes (absorb 1 s (t ++ padding (length t) bits))
  final-short lt =
      let n = 55 - length t in
      let zeros : n ≡ pad_zeros (length t) = omega arith in
      let p = t ++ 0x80 ∷ replicate n 0 in
      let lp : length p ≡ 56 =
        omega (arith, length-append t (0x80 ∷ replicate n 0), length-replicate {A = ℕ} n 0) in
      let block = p ++ length_bytes bits in
      let whole : block ≡ t ++ padding (length t) bits =
        append_assoc t (0x80 ∷ replicate n 0) (length_bytes bits)
        ∙ ap (λ (m : ℕ). t ++ 0x80 ∷ (replicate m 0 ++ length_bytes bits)) zeros in
      final-padded (context t (y ∷ q) b s) p (drop n q) (length t) b s
        (pad_block-short t q y b s h lt) lp (omega (arith, length-drop n q))
      ∙ ap (λ (x : Bytes). word_bytes (compress s x))
          (sym (take_all 64 block (omega (arith, length-append p (length_bytes bits))))
            ∙ ap (take 64) whole)

  final-long :
      56 ≤ length t
      → sha256_final (context t (y ∷ q) b s)
        ≡ word_bytes (absorb 2 s (t ++ padding (length t) bits))
  final-long le =
      let n = 63 - length t in
      let first = first_block t q y b s h in
      let lf : length first ≡ 64 =
        omega (arith, length-append t (0x80 ∷ replicate n 0), length-replicate {A = ℕ} n 0) in
      let second = replicate 56 0 ++ length_bytes bits in
      let zeros : n + 56 ≡ pad_zeros (length t) = omega arith in
      let whole : first ++ second ≡ t ++ padding (length t) bits =
        append_assoc t (0x80 ∷ replicate n 0) second
        ∙ ap (λ (x : Bytes). t ++ 0x80 ∷ x)
            (sym (append_assoc (replicate n 0) (replicate 56 0) (length_bytes bits))
              ∙ ap (λ (x : Bytes). x ++ length_bytes bits)
                  (replicate-append n 56 0 ∙ ap (λ (m : ℕ). replicate m 0) zeros)) in
      final-padded (context t (y ∷ q) b s) (replicate 56 0) (drop 56 first) (length t) b
        (compress s first) (pad_block-long t q y b s h le) refl
        (omega (arith, length-drop 56 first))
      ∙ (ap word_bytes (sym (absorb-block 1 s first second lf))
          ∙ ap (λ (x : Bytes). word_bytes (absorb 2 s x)) whole)

-- The blocks that a message of `n` bytes is padded to.
abbrev pub num_blocks : ℕ → ℕ
num_blocks n = (n + 72) / 64

final-absorb :
    (t q : Bytes) (b : ℕ) (s : List ℕ)
    → length t + length q ≡ 64
    → length t < 64
    → sha256_final (context t q b s)
      ≡ word_bytes
          (absorb (num_blocks (length t)) s (t ++ padding (length t) ((b + length t * 8) % 2 ^ 64)))
final-absorb t [] b s h lt = absurd (omega arith)
final-absorb t (y ∷ q) b s h lt =
    let h' : length t + (length q + 1) ≡ 64 = omega arith in
    let end = t ++ padding (length t) ((b + length t * 8) % 2 ^ 64) in
    elim (Bool-cases (ltb (length t) 56)) [
      | inl short ↦
          let one : 1 ≡ num_blocks (length t) = ground arith in
          final-short t q y b s h' (ground arith) ∙ ap (λ (k : ℕ). word_bytes (absorb k s end)) one
      | inr long ↦
          let two : 2 ≡ num_blocks (length t) = ground arith in
          final-long t q y b s h' (ground arith) ∙ ap (λ (k : ℕ). word_bytes (absorb k s end)) two
    ]

split-at : (n : ℕ) (l : Bytes) → take n l ++ drop n l ≡ l
split-at zero l = refl
split-at (suc n) [] = refl
split-at (suc n) (c ∷ l) = ap (◌∷◌ c) (split-at n l)

take-not_nil : (m : Bytes) → 64 ≤ length m → take 64 m ≢ []
take-not_nil [] h e = absurd (omega arith)
take-not_nil (c ∷ m) h e = absurd (cc)

pad-shift : (n : ℕ) → pad_zeros (64 + n) ≡ pad_zeros n
pad-shift n = omega arith

bits-shift : (b n : ℕ) → ((b + 512) % 2 ^ 64 + n * 8) % 2 ^ 64 ≡ (b + (64 + n) * 8) % 2 ^ 64
bits-shift b n = omega arith

blocks-shift : (n : ℕ) → num_blocks (64 + n) ≡ suc (num_blocks n)
blocks-shift n = omega arith

-- From a block that is empty, `n` bounding the blocks to come.
stream-absorb :
    (n : ℕ) (m q : Bytes) (b : ℕ) (s : List ℕ)
    → length q ≡ 64
    → length m < 64 * n
    → sha256_final (sha256_update (context [] q b s) m)
      ≡ word_bytes
          (absorb (num_blocks (length m)) s (m ++ padding (length m) ((b + length m * 8) % 2 ^ 64)))
stream-absorb zero m q b s h lt = absurd (omega arith)
stream-absorb (suc n) m q b s h lt = elim (Bool-cases (ltb (length m) 64)) [
  | inl short ↦
      let fits : length m < 64 = ground arith in
      ap sha256_final (update-part b s [] q m (omega arith) (ground arith))
      ∙ final-absorb m (drop (length m) q) b s (omega (arith, length-drop (length m) q))
          (ground arith)
  | inr long ↦
      let full : 64 ≤ length m = ground arith in
      let x = take 64 m in
      let m' = drop 64 m in
      let lx : length x ≡ 64 = omega (arith, length-take 64 m) in
      let lm : length m ≡ 64 + length m' = omega (arith, length-drop 64 m) in
      let rest = padding (length m') (((b + 512) % 2 ^ 64 + length m' * 8) % 2 ^ 64) in
      let same : rest ≡ padding (length m) ((b + length m * 8) % 2 ^ 64) =
        ap₂ (λ (z c : ℕ). 0x80 ∷ (replicate z 0 ++ length_bytes c))
          (sym (pad-shift (length m')) ∙ ap (λ (k : ℕ). pad_zeros k) (sym lm))
          (bits-shift b (length m') ∙ ap (λ (k : ℕ). (b + k * 8) % 2 ^ 64) (sym lm)) in
      let more : num_blocks (length m) ≡ suc (num_blocks (length m')) =
        ap (λ (k : ℕ). num_blocks k) lm ∙ blocks-shift (length m') in
      ap (λ (y : Bytes). sha256_final (sha256_update (context [] q b s) y)) (sym (split-at 64 m))
      ∙ (ap sha256_final (
            update-append (context [] q b s) x m'
            ∙ ap (λ (c : Context). sha256_update c m')
                (update-full b s [] q x (omega arith) (omega arith) (take-not_nil m full)))
          ∙ (stream-absorb n m' x ((b + 512) % 2 ^ 64) (compress s x) lx (omega arith)
              ∙ (ap word_bytes (sym (absorb-block (num_blocks (length m')) s x (m' ++ rest) lx))
                  ∙ ap₂ (λ (k : ℕ) (y : Bytes). word_bytes (absorb k s y)) (sym more)
                      (sym (append_assoc x m' rest)
                        ∙ ap₂ (λ (a c : Bytes). a ++ c) (split-at 64 m) same))))
]

-- SHA-256 of the standard: the state after the blocks of the padded message, as bytes.
abbrev pub digest : Bytes → Bytes
digest m =
    word_bytes (
      absorb (num_blocks (length m)) initial_state
        (m ++ padding (length m) (length m * 8 % 2 ^ 64)))

-- `sha256`, which collects the message byte by byte in the block of its context, pads it in place
-- and counts its bits as it goes, computes the digest by blocks of the padded message (the message,
-- the byte 0x80, the fewest zeros, and its length in bits modulo 2 ^ 64), whatever stands in the
-- block that `sha256_init` does not set.
pub sha256_lem :
    (m uninitialised : Bytes)
    → length uninitialised ≡ 64
    → (sha256_final (sha256_update (sha256_init uninitialised) m) ≡ digest m)
      × (sha256 m ≡ digest m)
unfolding sha256 sha256_init
sha256_lem m uninitialised h =
    let start : 0 + length m * 8 ≡ length m * 8 = omega arith in
    let last =
      ap
        (λ (bits : ℕ).
          word_bytes (
            absorb (num_blocks (length m)) initial_state (m ++ padding (length m) (bits % 2 ^ 64))))
        start in
    (
      stream-absorb (length m + 1) m uninitialised 0 initial_state h (omega arith) ∙ last,
      stream-absorb (length m + 1) m (replicate 64 0) 0 initial_state refl (omega arith) ∙ last,
    )
