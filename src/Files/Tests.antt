-- ===== src/Files/Tests.antt =====
-- Runs of the functions of task3_filesystem_security, and its theorems at concrete inputs.
mod Records
mod Menu
use samuel_basnet_240512_st.Prelude.{
  ℕ, zero, suc, ◌<◌, Bytes, codes, Bool, true, false, Option, none, some, List, [], ◌∷◌, ◌++◌, ◌≡◌,
  ◌↔◌, refl, arith, length, replicate, get_or, ◌==◌, str_eq, strn_eq, if◌then◌else◌,
}
use samuel_basnet_240512_st.Files.Disk.{
  User, FileMeta, PermType, perm_read, perm_write, perm_execute, Disk, Io,
}
use samuel_basnet_240512_st.Files.Sha.{sha256, compress, sha256_init, sha256_update, sha256_final}
use samuel_basnet_240512_st.Files.Sha.Digest.{digest, sha256_lem}
use samuel_basnet_240512_st.Files.Crypto.{
  bytes_to_hex, xor_cipher, xor_from, generate_salt, hash_password,
}
use samuel_basnet_240512_st.Files.Crypto.Xor.{xor_cipher-twice}
use samuel_basnet_240512_st.Files.Perms.{
  perm_loop, is_valid_perm_string, find_meta, find_file_meta, check_permission,
}
use samuel_basnet_240512_st.Files.Perms.Check.{
  IsPerm, letters, place, class_of, letter, is_valid_perm_string_iff, check_permission_lem,
}
use samuel_basnet_240512_st.Files.Auth.{find_in, find_user, register_user, login_user, new_user}
use samuel_basnet_240512_st.Files.Auth.Login.{register-login, register-twice, register-others}
use samuel_basnet_240512_st.Files.Ops.{
  storage_path, fs_write_file, fs_read_file, fs_delete_file, transform_file,
}
use samuel_basnet_240512_st.Files.Ops.Guard.{
  Allowed, Guarded, GuardedOrFault, ReadGuarded, operations-Guarded,
}
use samuel_basnet_240512_st.Files.Ops.Encrypt.{Ready, RoundTrip, encrypt-decrypt}
use samuel_basnet_240512_st.Files.Ops.Append.{append-encrypted, append-aligned}

sha256_abc :
    bytes_to_hex (sha256 (codes "abc"))
    ≡ codes "ba7816bf8f01cfea414140de5dae2223b00361a396177a9cb410ff61f20015ad"
unfolding sha256 bytes_to_hex compress
sha256_abc = refl

-- A system in which every file opens.
abbrev pub all_open : Io
all_open = record {
  now = codes "Thu Nov 26 10:00:00 2026";
  audit_append = true;
  users_read = true;
  users_append = true;
  metas_read = true;
  metas_append = true;
  metas_write = true;
  storage_read = true;
  storage_write = true;
  storage_remove = true;
  memory = true;
}

abbrev pub notes : Bool → FileMeta
notes encrypted = record {
  filename = codes "notes";
  owner = codes "ann";
  group = codes "staff";
  permissions = codes "rw-r-----";
  is_encrypted = encrypted;
}

-- One file, of the user ann, with this content.
abbrev pub one_file : Bool → Bytes → Disk
one_file encrypted content = record {
  users = [];
  metas = notes encrypted ∷ [];
  storage = λ path. if str_eq path (codes "storage/notes") then some content else none;
  audit = [];
}

abbrev hello : Bytes
hello = codes "hello"

abbrev pass : Bytes
pass = codes "secret"

one_file-Ready :
    (encrypted : Bool) (content : Bytes)
    → Ready all_open
        (codes "ann")
        (codes "staff")
        (codes "notes")
        (one_file encrypted content)
        (notes encrypted)
        content
unfolding find_file_meta find_meta check_permission storage_path str_eq strn_eq
one_file-Ready encrypted content = record {
  recorded = refl;
  writable = refl;
  rewrites = (refl, refl, omega arith);
  reads = refl;
  writes = refl;
  memory = refl;
  stored = refl;
}

ann_reads :
    (encrypted : Bool)
    → check_permission (codes "ann") (codes "staff") (notes encrypted) perm_read ≡ true
unfolding check_permission strn_eq
ann_reads encrypted = refl

notes_valid : is_valid_perm_string (codes "rw-r-----") ≡ true
unfolding is_valid_perm_string perm_loop
notes_valid = refl

check_permission_lem_example :
    check_permission (codes "bob") (codes "staff") (notes false) perm_write ≡ (
      get_or
        (codes "rw-r-----")
        (place (class_of (codes "bob") (codes "staff") (notes false)) perm_write)
        0
      == letter perm_write)
check_permission_lem_example =
    check_permission_lem (codes "bob") (codes "staff") (notes false) perm_write notes_valid

encrypt-decrypt_example :
    RoundTrip all_open
      (codes "ann")
      (codes "staff")
      (codes "notes")
      pass
      (one_file false hello)
      (notes false)
      hello
encrypt-decrypt_example =
    encrypt-decrypt all_open (codes "ann") (codes "staff") (codes "notes") pass
      (one_file false hello) (notes false) hello (one_file-Ready false hello) refl

append-encrypted_example :
    (fs_read_file all_open
      (codes "ann")
      (codes "staff")
      (codes "notes")
      (some pass)
      4096
      (fs_write_file all_open
        (codes "ann")
        (codes "staff")
        (codes "notes")
        (some pass)
        (codes " you")
        true
        (one_file true (xor_cipher hello pass))).1).0
    ≡ some (hello ++ xor_from (sha256 pass) 5 (xor_cipher (codes " you") pass))
append-encrypted_example =
    append-encrypted all_open (codes "ann") (codes "staff") (codes "notes") pass (codes " you") 4096
      (one_file true (xor_cipher hello pass)) (notes true) hello
      (one_file-Ready true (xor_cipher hello pass)) refl (ann_reads true) (omega arith)

abbrev StrangerWrites : Type 0
StrangerWrites =
    Allowed all_open (codes "bob") (codes "staff") (codes "notes") perm_write (one_file false hello)

-- The user bob of the group staff may only read.
operations-Guarded_example :
    let d = one_file false hello in
    let bob = codes "bob" in
    let staff = codes "staff" in
    let f = codes "notes" in
    Guarded StrangerWrites d (fs_write_file all_open bob staff f none hello true d)
    × Guarded StrangerWrites d (fs_delete_file all_open bob staff f d)
    × GuardedOrFault all_open bob staff f d StrangerWrites
        (transform_file all_open bob staff f pass false true (codes "ENCRYPT") d)
    × ReadGuarded all_open bob staff f d (fs_read_file all_open bob staff f none 64 d)
operations-Guarded_example =
    operations-Guarded all_open (codes "bob") (codes "staff") (codes "notes") (one_file false hello)
      none hello true pass false true (codes "ENCRYPT") 64

sha256_lem_example :
    (sha256_final (sha256_update (sha256_init (replicate 64 7)) (codes "abc"))
      ≡ digest (codes "abc"))
    × (sha256 (codes "abc") ≡ digest (codes "abc"))
sha256_lem_example = sha256_lem (codes "abc") (replicate 64 7) refl
