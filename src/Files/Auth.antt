-- ===== src/Files/Auth.antt =====
-- task3_filesystem_security/auth.c: registration and login.
pub mod Login
use samuel_basnet_240512_st.Prelude.{
  ℕ, ◌+◌, ◌-◌, Bytes, codes, Bool, true, false, not, ◌&&◌, ◌||◌, Option, none, some, List, [], ◌∷◌,
  ◌++◌, ltb, leb, ◌==◌, if◌then◌else◌, length, take, str_eq, strn_eq,
}
use samuel_basnet_240512_st.Files.Disk.{max_username, max_password, max_group, User, Disk, Io}
use samuel_basnet_240512_st.Files.Audit.{log_action}
use samuel_basnet_240512_st.Files.Crypto.{generate_salt, hash_password}

unfoldable pub find_in : Bytes → List User → Option User
find_in username [] = none
find_in username (u ∷ us) =
    if strn_eq max_username u.username username then some u else find_in username us

unfoldable pub find_user : Io → Bytes → Disk → Option User
find_user io username d = if io.users_read then find_in username d.users else none

abbrev pub invalid_input : Bytes → Bytes → Bytes → Bool
invalid_input username password group =
    length username == 0
    || leb max_username (length username)
    || length password == 0
    || leb max_password (length password)
    || leb max_group (length group)

abbrev pub new_user : Bytes → Bytes → Bytes → Bytes → User
new_user username password group salt = record {
  username = take (max_username - 1) username;
  group = take (max_group - 1) group;
  salt = salt;
  hash = hash_password password salt;
}

abbrev pub register_new : Io → User → Bytes → Disk → Option User → Bool × Disk
register_new io u username d (some taken) =
    (false, log_action io username (codes "REGISTER") username (codes "FAILED_ALREADY_EXISTS") d)
register_new io u username d none =
    if io.users_append
    then (
      true,
      log_action io username (codes "REGISTER") username (codes "SUCCESS")
          (record d { users = d.users ++ u ∷ [] }),
    )
    else (false, log_action io username (codes "REGISTER") username (codes "FAILED_IO_ERROR") d)

-- `rands` is what the 16 calls of `rand` for the salt return.
unfoldable pub register_user : Io → List ℕ → Bytes → Bytes → Bytes → Disk → Bool × Disk
register_user io rands username password group d =
    if invalid_input username password group
    then (
      false,
      log_action io username (codes "REGISTER") username (codes "FAILED_INVALID_INPUT") d,
    )
    else register_new io (new_user username password group (generate_salt rands)) username d
        (find_user io username d)

abbrev pub login_found : Io → Bytes → Bytes → Disk → Option User → Option User × Disk
login_found io username password d none =
    (none, log_action io username (codes "LOGIN") username (codes "FAILED_UNKNOWN_USER") d)
login_found io username password d (some u) =
    if str_eq (hash_password password u.salt) u.hash
    then (some u, log_action io username (codes "LOGIN") username (codes "SUCCESS") d)
    else (none, log_action io username (codes "LOGIN") username (codes "FAILED_WRONG_PASSWORD") d)

-- `some` is the return of 1 with the record in `out_user`. `memcmp` compares the 32 bytes of two
-- hashes.
unfoldable pub login_user : Io → Bytes → Bytes → Disk → Option User × Disk
login_user io username password d = login_found io username password d (find_user io username d)
