-- ===== src/Files/Sha.antt =====
-- SHA-256 as task3_filesystem_security/crypto.c computes it. An `unsigned int` is a number below
-- 2 ^ 32, and each sum and left shift wraps.
pub mod Blocks
pub mod Pad
pub mod Digest
use Prim.Native.Nat.{bit_and, bit_or, bit_xor}
use samuel_basnet_240512_st.Prelude.{
  ℕ, zero, suc, ◌+◌, ◌-◌, ◌*◌, ◌/◌, ◌%◌, ◌^◌, Bytes, List, [], ◌∷◌, ◌++◌, ◌==◌, ltb, if◌then◌else◌,
  get_or, set, replicate, drop,
}

abbrev pub u32 : ℕ → ℕ
u32 n = n % 2 ^ 32

abbrev pub u8 : ℕ → ℕ
u8 n = n % 2 ^ 8

infixl 75 ◌<<◌ ◌>>◌
abbrev pub ◌<<◌ : ℕ → ℕ → ℕ
x << k = x * 2 ^ k

abbrev pub ◌>>◌ : ℕ → ℕ → ℕ
x >> k = x / 2 ^ k

-- `~x` on 32 bits.
abbrev pub complement : ℕ → ℕ
complement x = 2 ^ 32 - 1 - x

unfoldable pub rotright : ℕ → ℕ → ℕ
rotright a b = bit_or (a >> b) (u32 (a << (32 - b)))

unfoldable pub ch : ℕ → ℕ → ℕ → ℕ
ch x y z = bit_xor (bit_and x y) (bit_and (complement x) z)

unfoldable pub maj : ℕ → ℕ → ℕ → ℕ
maj x y z = bit_xor (bit_xor (bit_and x y) (bit_and x z)) (bit_and y z)

unfoldable pub ep0 : ℕ → ℕ
unfolding rotright
ep0 x = bit_xor (bit_xor (rotright x 2) (rotright x 13)) (rotright x 22)

unfoldable pub ep1 : ℕ → ℕ
unfolding rotright
ep1 x = bit_xor (bit_xor (rotright x 6) (rotright x 11)) (rotright x 25)

unfoldable pub sig0 : ℕ → ℕ
unfolding rotright
sig0 x = bit_xor (bit_xor (rotright x 7) (rotright x 18)) (x >> 3)

unfoldable pub sig1 : ℕ → ℕ
unfolding rotright
sig1 x = bit_xor (bit_xor (rotright x 17) (rotright x 19)) (x >> 10)

-- The table `k`.
abbrev pub round_constants : List ℕ
round_constants =
    0x428a2f98 ∷ 0x71374491 ∷ 0xb5c0fbcf ∷ 0xe9b5dba5 ∷ 0x3956c25b ∷ 0x59f111f1 ∷ 0x923f82a4
    ∷ 0xab1c5ed5 ∷ 0xd807aa98 ∷ 0x12835b01 ∷ 0x243185be ∷ 0x550c7dc3 ∷ 0x72be5d74 ∷ 0x80deb1fe
    ∷ 0x9bdc06a7 ∷ 0xc19bf174 ∷ 0xe49b69c1 ∷ 0xefbe4786 ∷ 0x0fc19dc6 ∷ 0x240ca1cc ∷ 0x2de92c6f
    ∷ 0x4a7484aa ∷ 0x5cb0a9dc ∷ 0x76f988da ∷ 0x983e5152 ∷ 0xa831c66d ∷ 0xb00327c8 ∷ 0xbf597fc7
    ∷ 0xc6e00bf3 ∷ 0xd5a79147 ∷ 0x06ca6351 ∷ 0x14292967 ∷ 0x27b70a85 ∷ 0x2e1b2138 ∷ 0x4d2c6dfc
    ∷ 0x53380d13 ∷ 0x650a7354 ∷ 0x766a0abb ∷ 0x81c2c92e ∷ 0x92722c85 ∷ 0xa2bfe8a1 ∷ 0xa81a664b
    ∷ 0xc24b8b70 ∷ 0xc76c51a3 ∷ 0xd192e819 ∷ 0xd6990624 ∷ 0xf40e3585 ∷ 0x106aa070 ∷ 0x19a4c116
    ∷ 0x1e376c08 ∷ 0x2748774c ∷ 0x34b0bcb5 ∷ 0x391c0cb3 ∷ 0x4ed8aa4a ∷ 0x5b9cca4f ∷ 0x682e6ff3
    ∷ 0x748f82ee ∷ 0x78a5636f ∷ 0x84c87814 ∷ 0x8cc70208 ∷ 0x90befffa ∷ 0xa4506ceb ∷ 0xbef9a3f7
    ∷ 0xc67178f2 ∷ []

-- `SHA256_CTX`. `block` is its member `data`.
pub record Context : Type 0 where
  pub block : Bytes
  pub datalen : ℕ
  pub bitlen : ℕ
  pub state : List ℕ

-- The first 16 words of `m`: four bytes each, the first the highest.
first_words : ℕ → Bytes → List ℕ
first_words zero bytes = []
first_words (suc n) bytes =
    bit_or
      (bit_or (bit_or (u32 (get_or bytes 0 0 << 24)) (get_or bytes 1 0 << 16))
        (get_or bytes 2 0 << 8))
      (get_or bytes 3 0)
    ∷ first_words n (drop 4 bytes)

-- The words from `m[i]` on, with `left` to go.
more_words : ℕ → ℕ → List ℕ → List ℕ
unfolding sig0 sig1
more_words zero i m = m
more_words (suc left) i m = more_words left (i + 1) (
    m
    ++ u32 (
        sig1 (get_or m (i - 2) 0)
        + get_or m (i - 7) 0
        + sig0 (get_or m (i - 15) 0)
        + get_or m (i - 16) 0)
      ∷ [])

unfoldable pub message_schedule : Bytes → List ℕ
unfolding first_words more_words
message_schedule bytes = more_words 48 16 (first_words 16 bytes)

-- The variables `a` to `h`.
pub record Registers : Type 0 where
  pub a : ℕ
  pub b : ℕ
  pub c : ℕ
  pub d : ℕ
  pub e : ℕ
  pub f : ℕ
  pub g : ℕ
  pub h : ℕ

unfoldable pub round : ℕ → ℕ → Registers → Registers
unfolding ch maj ep0 ep1
round k m r =
    let t1 = u32 (r.h + ep1 r.e + ch r.e r.f r.g + k + m) in
    let t2 = u32 (ep0 r.a + maj r.a r.b r.c) in
    record {
      a = u32 (t1 + t2);
      b = r.a;
      c = r.b;
      d = r.c;
      e = u32 (r.d + t1);
      f = r.e;
      g = r.f;
      h = r.g;
    }

rounds : List ℕ → List ℕ → Registers → Registers
unfolding round
rounds [] ms r = r
rounds (k ∷ ks) [] r = r
rounds (k ∷ ks) (m ∷ ms) r = rounds ks ms (round k m r)

registers : List ℕ → Registers
registers s = record {
  a = get_or s 0 0;
  b = get_or s 1 0;
  c = get_or s 2 0;
  d = get_or s 3 0;
  e = get_or s 4 0;
  f = get_or s 5 0;
  g = get_or s 6 0;
  h = get_or s 7 0;
}

add_registers : List ℕ → Registers → List ℕ
add_registers s r =
    u32 (get_or s 0 0 + r.a)
    ∷ u32 (get_or s 1 0 + r.b)
    ∷ u32 (get_or s 2 0 + r.c)
    ∷ u32 (get_or s 3 0 + r.d)
    ∷ u32 (get_or s 4 0 + r.e)
    ∷ u32 (get_or s 5 0 + r.f)
    ∷ u32 (get_or s 6 0 + r.g)
    ∷ u32 (get_or s 7 0 + r.h)
    ∷ []

-- The state after a block, from the state before it.
unfoldable pub compress : List ℕ → Bytes → List ℕ
unfolding message_schedule rounds registers add_registers
compress state bytes =
    add_registers state (rounds round_constants (message_schedule bytes) (registers state))

unfoldable pub sha256_transform : Context → Bytes → Context
sha256_transform ctx bytes = record ctx { state = compress ctx.state bytes }

abbrev pub initial_state : List ℕ
initial_state =
    0x6a09e667 ∷ 0xbb67ae85 ∷ 0x3c6ef372 ∷ 0xa54ff53a ∷ 0x510e527f ∷ 0x9b05688c ∷ 0x1f83d9ab
    ∷ 0x5be0cd19 ∷ []

-- `data` is not set: what stands there is overwritten before it is read.
unfoldable pub sha256_init : Bytes → Context
sha256_init uninitialised = record {
  block = uninitialised;
  datalen = 0;
  bitlen = 0;
  state = initial_state;
}

-- One round of the loop of `sha256_update`.
unfoldable pub update_byte : Context → ℕ → Context
unfolding sha256_transform
update_byte ctx byte =
    let ctx' = record ctx { block = set ctx.block ctx.datalen byte; datalen = ctx.datalen + 1 } in
    let full = sha256_transform ctx' ctx'.block in
    if ctx'.datalen == 64
    then record full { bitlen = (full.bitlen + 512) % 2 ^ 64; datalen = 0 }
    else ctx'

unfoldable pub sha256_update : Context → Bytes → Context
unfolding update_byte
sha256_update ctx [] = ctx
sha256_update ctx (byte ∷ bytes) = sha256_update (update_byte ctx byte) bytes

-- `while (i < end) data[i++] = 0x00`, with `end - i` rounds.
unfoldable pub zero_from : ℕ → ℕ → Bytes → Bytes
zero_from zero i block = block
zero_from (suc left) i block = zero_from left (i + 1) (set block i 0)

-- The eight bytes of `bitlen`, from `data[56]` on, the highest first.
unfoldable pub put_length : ℕ → Bytes → Bytes
put_length bitlen block =
    let b63 = set block 63 (u8 bitlen) in
    let b62 = set b63 62 (u8 (bitlen >> 8)) in
    let b61 = set b62 61 (u8 (bitlen >> 16)) in
    let b60 = set b61 60 (u8 (bitlen >> 24)) in
    let b59 = set b60 59 (u8 (bitlen >> 32)) in
    let b58 = set b59 58 (u8 (bitlen >> 40)) in
    let b57 = set b58 57 (u8 (bitlen >> 48)) in set b57 56 (u8 (bitlen >> 56))

-- The block with its mark 0x80, and the zeros behind it.
unfoldable pub pad_block : Context → Context
unfolding zero_from sha256_transform
pad_block ctx =
    let marked = set ctx.block ctx.datalen 0x80 in
    let i = ctx.datalen + 1 in
    let long = record ctx { block = zero_from (64 - i) i marked } in
    let flushed = sha256_transform long long.block in
    if ltb ctx.datalen 56
    then record ctx { block = zero_from (56 - i) i marked }
    else record flushed { block = zero_from 56 0 flushed.block }

-- Byte `i` of each word: `(state[j] >> (24 - i * 8)) & 0xff` goes to `hash[i + j * 4]`.
unfoldable pub word_bytes : List ℕ → Bytes
word_bytes [] = []
word_bytes (w ∷ ws) = u8 (w >> 24) ∷ u8 (w >> 16) ∷ u8 (w >> 8) ∷ u8 w ∷ word_bytes ws

unfoldable pub sha256_final : Context → Bytes
unfolding pad_block put_length sha256_transform word_bytes
sha256_final ctx =
    let padded = pad_block ctx in
    let bits = (padded.bitlen + padded.datalen * 8) % 2 ^ 64 in
    word_bytes (sha256_transform padded (put_length bits padded.block)).state

unfoldable pub sha256 : Bytes → Bytes
unfolding sha256_init sha256_update sha256_final
sha256 bytes = sha256_final (sha256_update (sha256_init (replicate 64 0)) bytes)
