-- ===== src/Files/Sha/Blocks.antt =====
-- How `sha256_update` of crypto.c collects the bytes of a message into blocks of 64.
use mathlib.Core.List.{append_assoc, append-nil}
use samuel_basnet_240512_st.Prelude.{
  ℕ, ◌+◌, ◌%◌, ◌^◌, ◌<◌, ◌≢◌, Bytes, List, [], ◌∷◌, ◌++◌, ◌≡◌, refl, ap, ◌∙◌, arith, ◌==◌, length,
  length-append, drop, set-append, false, true,
}
use samuel_basnet_240512_st.Files.Sha.{
  Context, compress, sha256_transform, update_byte, sha256_update,
}

-- `p` is the part of the block that has been read, `q` what still stands behind it.
abbrev pub context : Bytes → Bytes → ℕ → List ℕ → Context
context p q b s = record { block = p ++ q; datalen = length p; bitlen = b; state = s }

module _ (b : ℕ) (s : List ℕ) where
  byte-part :
      (p q : Bytes) (y c : ℕ)
      → length p + 1 < 64
      → update_byte (context p (y ∷ q) b s) c ≡ context (p ++ c ∷ []) q b s
  unfolding update_byte
  byte-part p q y c h =
      let not_full : (length p + 1 == 64) ≡ false = ground arith in
      rw (not_full, set-append p y c q, length-append p (c ∷ []), append_assoc p (c ∷ []) q) refl

  byte-full :
      (p : Bytes) (y c : ℕ)
      → length p + 1 ≡ 64
      → update_byte (context p (y ∷ []) b s) c
        ≡ context [] (p ++ c ∷ []) ((b + 512) % 2 ^ 64) (compress s (p ++ c ∷ []))
  unfolding update_byte sha256_transform
  byte-full p y c h =
      let full : (length p + 1 == 64) ≡ true = ground arith in rw (full, set-append p y c []) refl

  pub update-part :
      (p q t : Bytes)
      → length p + length q ≡ 64
      → length t < length q
      → sha256_update (context p q b s) t ≡ context (p ++ t) (drop (length t) q) b s
  unfolding sha256_update
  update-part p q [] h lt = rw append-nil refl
  update-part p [] (c ∷ t) h lt = absurd (omega arith)
  update-part p (y ∷ q) (c ∷ t) h lt =
      ap (λ (x : Context). sha256_update x t) (byte-part p q y c (omega arith))
      ∙ (update-part (p ++ c ∷ []) q t (omega (arith, length-append p (c ∷ []))) (omega arith)
          ∙ ap (λ (x : Bytes). context x (drop (length t) q) b s) (append_assoc p (c ∷ []) t))

  pub update-full :
      (p q x : Bytes)
      → length p + length q ≡ 64
      → length x ≡ length q
      → x ≢ []
      → sha256_update (context p q b s) x
        ≡ context [] (p ++ x) ((b + 512) % 2 ^ 64) (compress s (p ++ x))
  unfolding sha256_update
  update-full p q [] h e ne = absurd (ne refl)
  update-full p [] (c ∷ x) h e ne = absurd (omega arith)
  update-full p (y ∷ []) (c ∷ []) h e ne = byte-full p y c (omega arith)
  update-full p (y ∷ z ∷ q) (c ∷ []) h e ne = absurd (omega arith)
  update-full p (y ∷ []) (c ∷ d ∷ x) h e ne = absurd (omega arith)
  update-full p (y ∷ z ∷ q) (c ∷ d ∷ x) h e ne =
      ap (λ (v : Context). sha256_update v (d ∷ x)) (byte-part p (z ∷ q) y c (omega arith))
      ∙ (update-full (p ++ c ∷ []) (z ∷ q) (d ∷ x) (omega (arith, length-append p (c ∷ [])))
            (omega arith) (cc)
          ∙ ap (λ (v : Bytes). context [] v ((b + 512) % 2 ^ 64) (compress s v))
              (append_assoc p (c ∷ []) (d ∷ x)))

pub update-append :
    (ctx : Context) (x m : Bytes)
    → sha256_update ctx (x ++ m) ≡ sha256_update (sha256_update ctx x) m
unfolding sha256_update
update-append ctx [] m = refl
update-append ctx (c ∷ x) m = update-append (update_byte ctx c) x m
