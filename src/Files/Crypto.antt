-- ===== src/Files/Crypto.antt =====
-- Salts, password hashes, the XOR cipher and hexadecimal text of task3_filesystem_security/crypto.c.
pub mod Xor
use Prim.Native.Nat.{bit_xor}
use samuel_basnet_240512_st.Prelude.{
  ℕ, zero, suc, ◌+◌, ◌-◌, ◌*◌, ◌/◌, ◌%◌, Bytes, List, [], ◌∷◌, ◌++◌, get_or, ltb, if◌then◌else◌,
  map,
}
use samuel_basnet_240512_st.Files.Sha.{sha256}

abbrev pub hash_len : ℕ
hash_len = 32

abbrev pub salt_len : ℕ
salt_len = 16

-- The list is what the calls of `rand` return, one for each byte of the salt.
unfoldable pub generate_salt : List ℕ → Bytes
generate_salt rands = map (λ r. r % 256) rands

unfoldable pub hash_password : Bytes → Bytes → Bytes
hash_password password salt = sha256 (salt ++ password)

-- `buffer[i] ^= key[i % HASH_LEN]` from index `i` on.
unfoldable pub xor_from : Bytes → ℕ → Bytes → Bytes
xor_from key i [] = []
xor_from key i (b ∷ buffer) = bit_xor b (get_or key (i % hash_len) 0) ∷ xor_from key (i + 1) buffer

unfoldable pub xor_cipher : Bytes → Bytes → Bytes
xor_cipher buffer passphrase = xor_from (sha256 passphrase) 0 buffer

-- A digit of `%02x`.
unfoldable pub hex_digit : ℕ → ℕ
hex_digit n = if ltb n 10 then 48 + n else 87 + n

unfoldable pub bytes_to_hex : Bytes → Bytes
unfolding hex_digit
bytes_to_hex [] = []
bytes_to_hex (b ∷ bytes) = hex_digit (b / 16) ∷ hex_digit (b % 16) ∷ bytes_to_hex bytes
