-- ===== src/Files/Disk.antt =====
-- The structures of task3_filesystem_security/common.h, and what the program keeps on disk.
use samuel_basnet_240512_st.Prelude.{ℕ, Bytes, Bool, List, Option}

abbrev pub max_username : ℕ
max_username = 32

abbrev pub max_password : ℕ
max_password = 64

abbrev pub max_group : ℕ
max_group = 32

abbrev pub max_filename : ℕ
max_filename = 64

abbrev pub perm_string_len : ℕ
perm_string_len = 9

-- The strings in the arrays `username` and `group`.
pub record User : Type 0 where
  pub username : Bytes
  pub group : Bytes
  pub salt : Bytes
  pub hash : Bytes

pub record FileMeta : Type 0 where
  pub filename : Bytes
  pub owner : Bytes
  pub group : Bytes
  pub permissions : Bytes
  pub is_encrypted : Bool

pub data PermType : Type 0 where
  perm_read perm_write perm_execute : PermType

-- `users.dat`, `files_meta.dat`, the files below `storage/` by their paths, and `audit.log`, each apart
-- from the others: no stored file is one of the three, as it is for a name without separators. A
-- database that does not exist is one without records.
pub record Disk : Type 0 where
  pub users : List User
  pub metas : List FileMeta
  pub storage : Bytes → Option Bytes
  pub audit : Bytes

-- What the C library and the system decide during one call: the text of the clock, which files can
-- be opened, and whether memory is given.
pub record Io : Type 0 where
  pub now : Bytes
  pub audit_append : Bool
  pub users_read : Bool
  pub users_append : Bool
  pub metas_read : Bool
  pub metas_append : Bool
  pub metas_write : Bool
  pub storage_read : Bool
  pub storage_write : Bool
  pub storage_remove : Bool
  pub memory : Bool
