-- ===== src/Files/Tests/Records.antt =====
-- The theorems on the databases of task3_filesystem_security at concrete inputs.
use samuel_basnet_240512_st.Prelude.{
  ℕ, zero, suc, codes, true, false, none, some, List, [], ◌∷◌, ◌++◌, ◌≡◌, refl, arith, replicate,
  length-replicate, str_eq, str_eq_refl, strn_eq, if◌then◌else◌, replicate,
}
use samuel_basnet_240512_st.Files.Disk.{User, FileMeta, Disk, max_filename}
use samuel_basnet_240512_st.Files.Crypto.{generate_salt, hash_password}
use samuel_basnet_240512_st.Files.Perms.{
  perm_loop, is_valid_perm_string, find_meta, find_file_meta, chmod_file, create_file_meta,
  new_meta, names, rewrite_meta_matching, set_encrypted,
}
use samuel_basnet_240512_st.Files.Perms.Records.{
  is_some, edit_found, rewrite_meta_matching_lem, record_lost,
}
use samuel_basnet_240512_st.Files.Auth.{find_in, find_user, register_user, login_user, new_user}
use samuel_basnet_240512_st.Files.Auth.Login.{register-login, register-others}
use samuel_basnet_240512_st.Files.Tests.{all_open, notes, one_file}

abbrev plain_file : Disk
plain_file = one_file false (codes "hello")

rewrite_meta_matching_lem_example :
    let (found, d') =
      rewrite_meta_matching all_open (codes "notes") (set_encrypted true) plain_file in
    (found ≡ is_some (find_file_meta all_open (codes "notes") plain_file))
    × (find_file_meta all_open (codes "plan") d' ≡ (
        if strn_eq max_filename (codes "notes") (codes "plan")
        then edit_found (set_encrypted true) (find_file_meta all_open (codes "plan") plain_file)
        else find_file_meta all_open (codes "plan") plain_file))
    × (d'.users ≡ plain_file.users)
    × (d'.storage ≡ plain_file.storage)
rewrite_meta_matching_lem_example =
    rewrite_meta_matching_lem all_open (codes "notes") (codes "plan") (set_encrypted true)
      plain_file (refl, refl, omega arith)

abbrev last_meta : FileMeta
last_meta = new_meta (codes "last") (codes "bob") (codes "staff") (codes "rw-------")

abbrev many_files : Disk
many_files = record {
  users = [];
  metas = replicate 1024 (notes false) ++ last_meta ∷ [];
  storage = λ path. none;
  audit = [];
}

absent : (n : ℕ) → find_meta (codes "last") (replicate n (notes false)) ≡ none
unfolding find_meta strn_eq str_eq
absent zero = refl
absent (suc n) = absent n

last_named : names last_meta (codes "last") ≡ true
unfolding strn_eq str_eq
last_named = refl

valid_perm : is_valid_perm_string (codes "rwxr-x---") ≡ true
unfolding is_valid_perm_string perm_loop
valid_perm = refl

record_lost_example :
    (find_file_meta all_open (codes "last") many_files ≡ some last_meta)
    × (find_file_meta all_open
          (codes "last")
          (chmod_file all_open (codes "notes") (codes "rwxr-x---") many_files).1
        ≡ none)
record_lost_example =
    record_lost all_open (codes "notes") (codes "last") (codes "rwxr-x---")
      (replicate 1024 (notes false)) last_meta many_files refl refl valid_perm refl
      (length-replicate 1024 (notes false)) (absent 1024) last_named

plan_created :
    (create_file_meta all_open
      (codes "plan")
      (codes "bob")
      (codes "staff")
      (codes "rwxr-x---")
      plain_file).0
    ≡ true
unfolding create_file_meta find_file_meta find_meta is_valid_perm_string perm_loop strn_eq str_eq
plan_created = refl

-- The users ann, and then bob.
abbrev salt : List ℕ
salt = replicate 16 300

abbrev nobody : Disk
nobody = record { users = []; metas = []; storage = λ path. none; audit = [] }

ann_registers :
    (register_user all_open salt (codes "ann") (codes "pw") (codes "staff") nobody).0 ≡ true
unfolding register_user find_user find_in
ann_registers = refl

abbrev with_ann : Disk
with_ann = (register_user all_open salt (codes "ann") (codes "pw") (codes "staff") nobody).1

register-login_example : (login_user all_open (codes "ann") (codes "pw") with_ann).0 ≡ (
    if str_eq
      (hash_password (codes "pw") (generate_salt salt))
      (hash_password (codes "pw") (generate_salt salt))
    then some (new_user (codes "ann") (codes "pw") (codes "staff") (generate_salt salt))
    else none)
register-login_example =
    register-login all_open salt (codes "ann") (codes "pw") (codes "staff") nobody refl
      ann_registers (codes "pw")

abbrev ann : User
ann = new_user (codes "ann") (codes "pw") (codes "staff") (generate_salt salt)

abbrev only_ann : Disk
only_ann = record { users = ann ∷ []; metas = []; storage = λ path. none; audit = [] }

bob_registers :
    (register_user all_open salt (codes "bob") (codes "x") (codes "staff") only_ann).0 ≡ true
unfolding register_user find_user find_in strn_eq str_eq
bob_registers = refl

ann_logs_in : (login_user all_open (codes "ann") (codes "pw") only_ann).0 ≡ some ann
unfolding login_user find_user find_in strn_eq
ann_logs_in =
    rw (str_eq_refl (codes "ann"), str_eq_refl (hash_password (codes "pw") (generate_salt salt)))
      refl

register-others_example :
    (login_user all_open
      (codes "ann")
      (codes "pw")
      (register_user all_open salt (codes "bob") (codes "x") (codes "staff") only_ann).1).0
    ≡ some ann
register-others_example =
    register-others all_open salt (codes "bob") (codes "x") (codes "staff") only_ann refl
      bob_registers (codes "ann") (codes "pw") ann ann_logs_in
