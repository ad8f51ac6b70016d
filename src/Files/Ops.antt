-- ===== src/Files/Ops.antt =====
-- task3_filesystem_security/fileops.c: operations on files, gated by permissions and logged.
pub mod Guard
pub mod Logged
pub mod Encrypt
pub mod Append
pub mod Create
use samuel_basnet_240512_st.Prelude.{
  ℕ, ◌+◌, ◌-◌, Bytes, codes, Bool, true, false, not, ◌&&◌, ◌||◌, Option, none, some, List, [], ◌∷◌,
  ◌++◌, ◌≢◌, All, if◌then◌else◌, length, take, str_eq,
}
use samuel_basnet_240512_st.Files.Disk.{
  max_filename, FileMeta, PermType, perm_read, perm_write, Disk, Io,
}
use samuel_basnet_240512_st.Files.Audit.{log_action}
use samuel_basnet_240512_st.Files.Crypto.{xor_cipher}
use samuel_basnet_240512_st.Files.Perms.{
  find_file_meta, create_file_meta, delete_file_meta, set_encrypted_flag, check_permission,
}

-- `snprintf` into a buffer of `MAX_FILENAME + 32` bytes.
unfoldable pub storage_path : Bytes → Bytes
storage_path filename = take (max_filename + 31) (codes "storage/" ++ filename)

-- No slash, backslash or colon: the path of such a name stays in storage/. The source takes other
-- names too, and the path of `../audit.log` is that of the log. The storage of the model is apart
-- from the log and the databases, so it is that of names for which this holds.
abbrev pub IsLocal : Bytes → Type 0
IsLocal filename = All (λ c. (c ≢ 47) × (c ≢ 92) × (c ≢ 58)) filename

-- `fopen(path, "rb")`
abbrev pub stored_at : Io → Bytes → Disk → Option Bytes
stored_at io path d = if io.storage_read then d.storage path else none

abbrev pub put_file : Bytes → Option Bytes → (Bytes → Option Bytes) → Bytes → Option Bytes
put_file path content files other = if str_eq path other then content else files other

-- `fopen`, `fwrite` and `fclose`: a file that opens is written whole.
abbrev pub write_file : Bytes → Bytes → Disk → Disk
write_file path content d = record d { storage = put_file path (some content) d.storage }

-- Every failure of an operation but that of `fs_create_file` logs, changes nothing and returns 0.
abbrev pub refuse : Io → Bytes → Bytes → Bytes → Bytes → Disk → Bool × Disk
refuse io username action filename result d =
    (false, log_action io username action filename result d)

abbrev pub accept : Io → Bytes → Bytes → Bytes → Disk → Bool × Disk
accept io username action filename d =
    (true, log_action io username action filename (codes "SUCCESS") d)

unfoldable pub fs_create_file : Io → Bytes → Bytes → Bytes → Bytes → Bytes → Disk → Bool × Disk
fs_create_file io username group filename perm_str content d =
    let (created, d') = create_file_meta io filename username group perm_str d in
    let rolled_back = (delete_file_meta io filename d').1 in
    if not created
    then refuse io username (codes "CREATE") filename (codes "FAILED_META_EXISTS_OR_INVALID") d'
    else if not io.storage_write
    then refuse io username (codes "CREATE") filename (codes "FAILED_IO_ERROR") rolled_back
    else accept io username (codes "CREATE") filename
        (write_file (storage_path filename) content d')

-- The cipher is applied if the file is marked and a passphrase is given (`none` is NULL).
abbrev pub cipher_if : Bool → Option Bytes → Bytes → Bytes
cipher_if encrypted none content = content
cipher_if encrypted (some passphrase) content =
    if encrypted then xor_cipher content passphrase else content

abbrev pub read_content :
    Io → Bytes → Bytes → Option Bytes → ℕ → FileMeta → Disk → Option Bytes → Option Bytes × Disk
read_content io username filename passphrase buf_size m d none =
    (none, log_action io username (codes "READ") filename (codes "FAILED_STORAGE_MISSING") d)
read_content io username filename passphrase buf_size m d (some content) = (
  some (cipher_if m.is_encrypted passphrase (take (buf_size - 1) content)),
  log_action io username (codes "READ") filename (codes "SUCCESS") d,
)

abbrev pub read_found :
    Io → Bytes → Bytes → Bytes → Option Bytes → ℕ → Disk → Option FileMeta → Option Bytes × Disk
read_found io username user_group filename passphrase buf_size d none =
    (none, log_action io username (codes "READ") filename (codes "FAILED_NOT_FOUND") d)
read_found io username user_group filename passphrase buf_size d (some m) =
    if not (check_permission username user_group m perm_read)
    then (none, log_action io username (codes "READ") filename (codes "FAILED_PERMISSION_DENIED") d)
    else read_content io username filename passphrase buf_size m d
        (stored_at io (storage_path filename) d)

-- `some` is the return of 1 with the `n` bytes of `out_buffer`.
unfoldable pub fs_read_file :
    Io → Bytes → Bytes → Bytes → Option Bytes → ℕ → Disk → Option Bytes × Disk
fs_read_file io username user_group filename passphrase buf_size d =
    read_found io username user_group filename passphrase buf_size d (find_file_meta io filename d)

abbrev pub old_content : Option Bytes → Bytes
old_content none = []
old_content (some b) = b

-- "ab" writes behind what stands there, "wb" from the beginning.
abbrev pub mode_content : Bool → Option Bytes → Bytes → Bytes
mode_content true old new = old_content old ++ new
mode_content false old new = new

abbrev pub write_action : Bool → Bytes
write_action true = codes "APPEND"
write_action false = codes "WRITE"

abbrev pub write_found :
    Io → Bytes → Bytes → Bytes → Option Bytes → Bytes → Bool → Disk → Option FileMeta → Bool × Disk
write_found io username user_group filename passphrase content append d none =
    refuse io username (codes "WRITE") filename (codes "FAILED_NOT_FOUND") d
write_found io username user_group filename passphrase content append d (some m) =
    let path = storage_path filename in
    if not (check_permission username user_group m perm_write)
    then refuse io username (codes "WRITE") filename (codes "FAILED_PERMISSION_DENIED") d
    else if not io.memory
    then refuse io username (codes "WRITE") filename (codes "FAILED_MEMORY_ERROR") d
    else if not io.storage_write
    then refuse io username (codes "WRITE") filename (codes "FAILED_IO_ERROR") d
    else accept io username (write_action append) filename (
        write_file path
          (mode_content append (d.storage path) (cipher_if m.is_encrypted passphrase content)) d)

unfoldable pub fs_write_file :
    Io → Bytes → Bytes → Bytes → Option Bytes → Bytes → Bool → Disk → Bool × Disk
fs_write_file io username user_group filename passphrase content append d =
    write_found io username user_group filename passphrase content append d
      (find_file_meta io filename d)

abbrev pub delete_found : Io → Bytes → Bytes → Bytes → Disk → Option FileMeta → Bool × Disk
delete_found io username user_group filename d none =
    refuse io username (codes "DELETE") filename (codes "FAILED_NOT_FOUND") d
delete_found io username user_group filename d (some m) =
    let gone = record d { storage = put_file (storage_path filename) none d.storage } in
    let removed = if io.storage_remove then gone else d in
    if not (check_permission username user_group m perm_write)
    then refuse io username (codes "DELETE") filename (codes "FAILED_PERMISSION_DENIED") d
    else accept io username (codes "DELETE") filename (delete_file_meta io filename removed).1

-- The result of `remove(path)` is not looked at: the metadata goes even if the file stays.
unfoldable pub fs_delete_file : Io → Bytes → Bytes → Bytes → Disk → Bool × Disk
fs_delete_file io username user_group filename d =
    delete_found io username user_group filename d (find_file_meta io filename d)

-- The second `fopen` of `transform_file` is not checked: where it fails, the program writes through
-- a null pointer, which is `none` here.
abbrev pub transform_content :
    Io → Bytes → Bytes → Bytes → Bool → Bytes → Disk → Option Bytes → Option (Bool × Disk)
transform_content io username filename passphrase set_to action d none =
    some (refuse io username action filename (codes "FAILED_STORAGE_MISSING") d)
transform_content io username filename passphrase set_to action d (some content) =
    let d' = write_file (storage_path filename) (xor_cipher content passphrase) d in
    if not io.memory
    then some (refuse io username action filename (codes "FAILED_MEMORY_ERROR") d)
    else if not io.storage_write
    then none
    else some (accept io username action filename (set_encrypted_flag io filename set_to d').1)

abbrev pub bool_eq : Bool → Bool → Bool
bool_eq true b = b
bool_eq false b = not b

abbrev pub transform_found :
    Io
    → Bytes
    → Bytes
    → Bytes
    → Bytes
    → Bool
    → Bool
    → Bytes
    → Disk
    → Option FileMeta
    → Option (Bool × Disk)
transform_found io username user_group filename passphrase expected set_to action d none =
    some (refuse io username action filename (codes "FAILED_NOT_FOUND") d)
transform_found io username user_group filename passphrase expected set_to action d (some m) =
    if not (check_permission username user_group m perm_write)
    then some (refuse io username action filename (codes "FAILED_PERMISSION_DENIED") d)
    else if not (bool_eq m.is_encrypted expected)
    then some (refuse io username action filename (codes "FAILED_WRONG_STATE") d)
    else transform_content io username filename passphrase set_to action d
        (stored_at io (storage_path filename) d)

unfoldable pub transform_file :
    Io → Bytes → Bytes → Bytes → Bytes → Bool → Bool → Bytes → Disk → Option (Bool × Disk)
transform_file io username user_group filename passphrase expected set_to action d =
    transform_found io username user_group filename passphrase expected set_to action d
      (find_file_meta io filename d)

unfoldable pub fs_encrypt_file : Io → Bytes → Bytes → Bytes → Bytes → Disk → Option (Bool × Disk)
fs_encrypt_file io username user_group filename passphrase d =
    transform_file io username user_group filename passphrase false true (codes "ENCRYPT") d

unfoldable pub fs_decrypt_file : Io → Bytes → Bytes → Bytes → Bytes → Disk → Option (Bool × Disk)
fs_decrypt_file io username user_group filename passphrase d =
    transform_file io username user_group filename passphrase true false (codes "DECRYPT") d
