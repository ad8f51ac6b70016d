-- ===== src/Files/Ops/Append.antt =====
-- Appending to an encrypted file, and reading it again.
use samuel_basnet_240512_st.Prelude.{
  ℕ, ◌+◌, ◌%◌, ◌<◌, Bytes, codes, Bool, true, Option, none, some, List, ◌++◌, ◌≡◌, ap, ◌∙◌,
  if◌then◌else◌, arith, length, length-append, str_eq_refl,
}
use samuel_basnet_240512_st.Files.Disk.{FileMeta, perm_read, Disk, Io}
use samuel_basnet_240512_st.Files.Audit.{log_action}
use samuel_basnet_240512_st.Files.Sha.{sha256}
use samuel_basnet_240512_st.Files.Crypto.{hash_len, xor_from, xor_cipher}
use samuel_basnet_240512_st.Files.Crypto.Xor.{
  xor_from-twice, length-xor_cipher, xor_from-period, xor_cipher-appended,
}
use samuel_basnet_240512_st.Files.Perms.{find_meta, find_file_meta, check_permission}
use samuel_basnet_240512_st.Files.Ops.{
  write_file, write_found, fs_write_file, fs_read_file, storage_path, cipher_if,
}
use samuel_basnet_240512_st.Files.Ops.Guard.{log-SameFiles}
use samuel_basnet_240512_st.Files.Ops.Encrypt.{Ready, read-Ready}

module _ {io : Io} {u g f : Bytes} {d : Disk} {m : FileMeta} {content : Bytes}
    (r : Ready io u g f d m content) (pass : Option Bytes) (new : Bytes) where
  abbrev appended : Bytes
  appended = content ++ cipher_if m.is_encrypted pass new

  abbrev final : Disk
  final =
      log_action io u (codes "APPEND") f (codes "SUCCESS") (write_file (storage_path f) appended d)

  append-returns : fs_write_file io u g f pass new true d ≡ (true, final)
  unfolding fs_write_file
  append-returns =
      ap (λ (o : Option FileMeta). write_found io u g f pass new true d o) r.recorded
      ∙ ground (arith, r.stored, r.writable, r.writes, r.memory)

  pub find-metas :
      (j : Bytes) (a b : Disk) → a.metas ≡ b.metas → find_file_meta io j a ≡ find_file_meta io j b
  unfolding find_file_meta
  find-metas j a b e = ap (λ (ms : List FileMeta). if io.metas_read then find_meta j ms else none) e

  append-Ready : Ready io u g f final m appended
  append-Ready =
      let same =
        log-SameFiles io u (codes "APPEND") f (codes "SUCCESS")
          (write_file (storage_path f) appended d) in
      record {
        recorded = find-metas f final d same.metas ∙ r.recorded;
        writable = r.writable;
        rewrites = (r.rewrites.0, r.rewrites.1, omega (arith, r.rewrites.2, ap length same.metas));
        reads = r.reads;
        writes = r.writes;
        memory = r.memory;
        stored =
            ap (λ (s : Bytes → Option Bytes). s (storage_path f)) same.storage
            ∙ ground (arith, str_eq_refl (storage_path f));
      }

  -- What a read with the same passphrase gives after the append.
  read_appended :
      (size : ℕ)
      → check_permission u g m perm_read ≡ true
      → length appended < size
      → (fs_read_file io u g f pass size (fs_write_file io u g f pass new true d).1).0
        ≡ some (cipher_if m.is_encrypted pass appended)
  read_appended size may fits =
      ap (λ (p : Bool × Disk). (fs_read_file io u g f pass size p.1).0) append-returns
      ∙ read-Ready io u g f pass size final m appended append-Ready may fits

-- Where no call of the C library fails, the user has both permissions, there are at most 1024
-- records and the buffer takes both contents: appending to an encrypted file and reading it, both
-- with its passphrase, gives the old content followed by the new one enciphered at the wrong place of the key stream: once from its beginning
-- and once from where the old content ends.
pub append-encrypted :
    (io : Io) (u g f pass new : Bytes) (size : ℕ) (d : Disk) (m : FileMeta) (old : Bytes)
    → Ready io u g f d m (xor_cipher old pass)
    → m.is_encrypted ≡ true
    → check_permission u g m perm_read ≡ true
    → length old + length new < size
    → (fs_read_file io u g f (some pass) size (fs_write_file io u g f (some pass) new true d).1).0
      ≡ some (old ++ xor_from (sha256 pass) (length old) (xor_cipher new pass))
append-encrypted io u g f pass new size d m old r marked may fits =
    let plain : (b : Bytes) → cipher_if m.is_encrypted (some pass) b ≡ xor_cipher b pass =
      λ b. ap (λ e. cipher_if e (some pass) b) marked in
    let short =
      ap length (ap (◌++◌ (xor_cipher old pass)) (plain new))
      ∙ length-append (xor_cipher old pass) (xor_cipher new pass) in
    read_appended r (some pass) new size may
      (omega (arith, short, length-xor_cipher old pass, length-xor_cipher new pass))
    ∙ ap some (
        plain (xor_cipher old pass ++ cipher_if m.is_encrypted (some pass) new)
        ∙ ap (λ b. xor_cipher (xor_cipher old pass ++ b) pass) (plain new)
        ∙ xor_cipher-appended old (xor_cipher new pass) pass)

-- Where no call of the C library fails, the user has both permissions, there are at most 1024
-- records and the buffer takes both contents: appending to an encrypted file and reading it, both
-- with its passphrase, gives the old content followed by the new one, if the old one is a multiple
-- of 32 bytes long.
pub append-aligned :
    (io : Io) (u g f pass new : Bytes) (size : ℕ) (d : Disk) (m : FileMeta) (old : Bytes)
    → Ready io u g f d m (xor_cipher old pass)
    → m.is_encrypted ≡ true
    → check_permission u g m perm_read ≡ true
    → length old + length new < size
    → length old % hash_len ≡ 0
    → (fs_read_file io u g f (some pass) size (fs_write_file io u g f (some pass) new true d).1).0
      ≡ some (old ++ new)
unfolding xor_cipher
append-aligned io u g f pass new size d m old r marked may fits aligned =
    append-encrypted io u g f pass new size d m old r marked may fits
    ∙ ap (λ b. some (old ++ b))
        (xor_from-period (sha256 pass) (length old) 0 (xor_cipher new pass) (omega (arith, aligned))
          ∙ xor_from-twice (sha256 pass) 0 new)
