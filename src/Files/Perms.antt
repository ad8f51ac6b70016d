-- ===== src/Files/Perms.antt =====
-- task3_filesystem_security/perms.c: metadata records and permission checks.
pub mod Check
pub mod Records
use samuel_basnet_240512_st.Prelude.{
  ℕ, zero, suc, ◌+◌, ◌-◌, Bytes, codes, Bool, true, false, not, ◌&&◌, ◌||◌, Option, none, some,
  List, [], ◌∷◌, ◌++◌, ◌==◌, if◌then◌else◌, length, get_or, take, strn_eq,
}
use samuel_basnet_240512_st.Files.Disk.{
  max_username, max_group, max_filename, perm_string_len, FileMeta, PermType, perm_read, perm_write,
  perm_execute, Disk, Io,
}

abbrev pub dash : ℕ
dash = b'-'

-- The loop over the nine positions, on the rest of the string and of `expected_type`.
unfoldable pub perm_loop : Bytes → Bytes → Bool
perm_loop [] expected = true
perm_loop (c ∷ cs) [] = true
perm_loop (c ∷ cs) (e ∷ expected) =
    if not (c == e) && not (c == dash) then false else perm_loop cs expected

unfoldable pub is_valid_perm_string : Bytes → Bool
unfolding perm_loop
is_valid_perm_string perm_str =
    if not (length perm_str == perm_string_len)
    then false
    else perm_loop perm_str (codes "rwxrwxrwx")

-- `strncmp(m.filename, filename, MAX_FILENAME) == 0`
abbrev pub names : FileMeta → Bytes → Bool
names m filename = strn_eq max_filename m.filename filename

unfoldable pub find_meta : Bytes → List FileMeta → Option FileMeta
find_meta filename [] = none
find_meta filename (m ∷ ms) = if names m filename then some m else find_meta filename ms

unfoldable pub find_file_meta : Io → Bytes → Disk → Option FileMeta
find_file_meta io filename d = if io.metas_read then find_meta filename d.metas else none

abbrev pub new_meta : Bytes → Bytes → Bytes → Bytes → FileMeta
new_meta filename owner group perm_str = record {
  filename = take (max_filename - 1) filename;
  owner = take (max_username - 1) owner;
  group = take (max_group - 1) group;
  permissions = take perm_string_len perm_str;
  is_encrypted = false;
}

abbrev pub append_meta : Io → FileMeta → Disk → Option FileMeta → Bool × Disk
append_meta io m d (some found) = (false, d)
append_meta io m d none =
    if io.metas_append then (true, record d { metas = d.metas ++ m ∷ [] }) else (false, d)

unfoldable pub create_file_meta : Io → Bytes → Bytes → Bytes → Bytes → Disk → Bool × Disk
create_file_meta io filename owner group perm_str d =
    if not (is_valid_perm_string perm_str)
    then (false, d)
    else append_meta io (new_meta filename owner group perm_str) d (find_file_meta io filename d)

-- What `rewrite_meta_matching` is asked to do with the records of a file.
pub data Change : Type 0 where
  delete_record : Change
  set_permissions : (perm_str : Bytes) → Change
  set_encrypted : (flag : Bool) → Change

abbrev pub changed : Change → FileMeta → List FileMeta → List FileMeta
changed delete_record m rest = rest
changed (set_permissions perm_str) m rest =
    record m { permissions = take perm_string_len perm_str } ∷ rest
changed (set_encrypted flag) m rest = record m { is_encrypted = flag } ∷ rest

-- The loop that writes the records back, and `found`.
unfoldable pub rewrite_loop : Bytes → Change → List FileMeta → Bool × List FileMeta
rewrite_loop filename change [] = (false, [])
rewrite_loop filename change (m ∷ ms) =
    let (found, rest) = rewrite_loop filename change ms in
    if names m filename then (true, changed change m rest) else (found, m ∷ rest)

abbrev pub max_records : ℕ
max_records = 1024

-- At most 1024 records are read, and the file is written anew with those. The result is `found`;
-- it stays 0 where a file cannot be opened.
unfoldable pub rewrite_meta_matching : Io → Bytes → Change → Disk → Bool × Disk
rewrite_meta_matching io filename change d =
    let (found, records) = rewrite_loop filename change (take max_records d.metas) in
    if io.metas_read && io.metas_write then (found, record d { metas = records }) else (false, d)

unfoldable pub chmod_file : Io → Bytes → Bytes → Disk → Bool × Disk
chmod_file io filename perm_str d =
    if not (is_valid_perm_string perm_str)
    then (false, d)
    else rewrite_meta_matching io filename (set_permissions perm_str) d

unfoldable pub set_encrypted_flag : Io → Bytes → Bool → Disk → Bool × Disk
set_encrypted_flag io filename flag d = rewrite_meta_matching io filename (set_encrypted flag) d

unfoldable pub delete_file_meta : Io → Bytes → Disk → Bool × Disk
delete_file_meta io filename d = rewrite_meta_matching io filename delete_record d

abbrev pub perm_index : PermType → ℕ
perm_index perm_read = 0
perm_index perm_write = 1
perm_index perm_execute = 2

abbrev pub base_index : Bytes → Bytes → FileMeta → ℕ
base_index username user_group m =
    if strn_eq max_username username m.owner
    then 0
    else if strn_eq max_group user_group m.group
    then 3
    else 6

-- `permissions` has a NUL behind its string.
unfoldable pub check_permission : Bytes → Bytes → FileMeta → PermType → Bool
check_permission username user_group m perm =
    not (get_or m.permissions (base_index username user_group m + perm_index perm) 0 == dash)
