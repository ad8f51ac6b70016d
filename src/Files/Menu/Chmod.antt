-- ===== src/Files/Menu/Chmod.antt =====
-- What the ungated choice 6 of main.c gives away.
use samuel_basnet_240512_st.Prelude.{
  ℕ, ◌+◌, ◌≤◌, ◌<◌, Bytes, codes, Bool, true, Option, none, some, List, [], ◌∷◌, ◌++◌, ◌≡◌, refl,
  ap, ◌∙◌, arith, length, take, if◌then◌else◌, str_eq, strn_eq, strn_eq_refl, c_str,
}
use samuel_basnet_240512_st.Files.Disk.{
  max_filename, max_password, User, FileMeta, perm_read, Disk, Io,
}
use samuel_basnet_240512_st.Files.Audit.{log_action}
use samuel_basnet_240512_st.Files.Perms.{
  find_meta, find_file_meta, perm_loop, is_valid_perm_string, chmod_file, set_permissions,
  rewrite_meta_matching, check_permission, max_records,
}
use samuel_basnet_240512_st.Files.Perms.Records.{edit_found, is_some, rewrite_meta_matching_lem}
use samuel_basnet_240512_st.Files.Ops.{storage_path, fs_read_file, read_found}
use samuel_basnet_240512_st.Files.Ops.Guard.{SameFiles, log-SameFiles}
use samuel_basnet_240512_st.Files.Menu.{
  World, Env, Round, again, text, content, show, read_line, shown, choose, choose_chmod,
  choose_read, session_round,
}
use samuel_basnet_240512_st.Files.Menu.Loops.{continue, forever, session_body, session_loop}
use samuel_basnet_240512_st.Files.Menu.Lines.{IsPlain, read_line-whole}

-- A file with a record and content, among at most 1024 records, in a database that can be opened.
pub record Stored (io : Io) (f : Bytes) (d : Disk) (m : FileMeta) (bytes : Bytes) : Type 0 where
  pub recorded : find_file_meta io f d ≡ some m
  pub reads : io.metas_read ≡ true
  pub writes : io.metas_write ≡ true
  pub records : length d.metas ≤ max_records
  pub stored : d.storage (storage_path f) ≡ some bytes

abbrev everything : Bytes
everything = codes "rwxrwxrwx"

everything_valid : is_valid_perm_string everything ≡ true
unfolding is_valid_perm_string perm_loop
everything_valid = refl

open_to_all :
    (user group : Bytes) (m : FileMeta)
    → m.permissions ≡ everything
    → check_permission user group m perm_read ≡ true
unfolding check_permission
open_to_all user group m e = rw e (ground arith)

module _ {io : Io} {f : Bytes} {d : Disk} {m : FileMeta} {bytes : Bytes} (s : Stored io f d m bytes)
    (user : Bytes) where
  -- The disk behind the change, what it says of the file, and the disk behind the log.
  abbrev changed : Disk
  changed = (rewrite_meta_matching io f (set_permissions everything) d).1

  abbrev opened : FileMeta
  opened = record m { permissions = everything }

  abbrev pub chmodded : Disk
  chmodded = log_action io user (codes "CHMOD") f (codes "SUCCESS") changed

  chmod_is :
      chmod_file io f everything d ≡ rewrite_meta_matching io f (set_permissions everything) d
  unfolding chmod_file
  chmod_is = rw everything_valid refl

  lem :
      let (found, d') = rewrite_meta_matching io f (set_permissions everything) d in
      (found ≡ is_some (find_file_meta io f d))
      × (find_file_meta io f d' ≡ (
          if strn_eq max_filename f f
          then edit_found (set_permissions everything) (find_file_meta io f d)
          else find_file_meta io f d))
      × (d'.users ≡ d.users)
      × (d'.storage ≡ d.storage)
  lem =
      rewrite_meta_matching_lem io f f (set_permissions everything) d (s.reads, s.writes, s.records)

  pub chmod_succeeds : (chmod_file io f everything d).0 ≡ true
  chmod_succeeds = ap (λ (r : Bool × Disk). r.0) chmod_is ∙ lem.0 ∙ ap is_some s.recorded

  same : SameFiles changed chmodded
  same = log-SameFiles io user (codes "CHMOD") f (codes "SUCCESS") changed

  find-metas :
      (io' : Io) (a b : Disk)
      → io'.metas_read ≡ true
      → a.metas ≡ b.metas
      → find_file_meta io' f a ≡ find_file_meta io f b
  unfolding find_file_meta
  find-metas io' a b reads e = ground (arith, reads, s.reads, ap (find_meta f) e)

  pub finds : (io' : Io) → io'.metas_read ≡ true → find_file_meta io' f chmodded ≡ some opened
  finds io' reads =
      find-metas io' chmodded changed reads same.metas
      ∙ lem.1
      ∙ rw (strn_eq_refl max_filename f, s.recorded) refl

  pub keeps : chmodded.storage (storage_path f) ≡ some bytes
  keeps =
      ap (λ (files : Bytes → Option Bytes). files (storage_path f)) (same.storage ∙ lem.3)
      ∙ s.stored

-- What is typed: these lines, and then the rest.
abbrev pub typed : List Bytes → Bytes → Bytes
typed [] rest = rest
typed (l ∷ ls) rest = l ++ 10 ∷ typed ls rest

module _ (env : ℕ → Env) (u : User) (w : World) (f rest : Bytes) (plain : IsPlain f)
    (short : length f < 63) where
  chmod_round :
      {m : FileMeta} {bytes : Bytes} (s : Stored (env w.rounds).io f w.disk m bytes)
      → w.input ≡ typed (codes "6" ∷ f ∷ everything ∷ []) rest
      → session_body env u w
        ≡ again (show w rest (chmodded s u.username) (text (codes "Permissions updated.") ∷ []))
  unfolding session_round choose choose_chmod str_eq
  chmod_round s typed_in =
      let after = f ++ 10 ∷ (everything ++ 10 ∷ rest) in
      let choice : read_line 8 (codes "6" ++ 10 ∷ after) ≡ (codes "6", after) =
        read_line-whole 8 (codes "6") after (ground arith) (omega arith) in
      let name : read_line max_filename after ≡ (f, everything ++ 10 ∷ rest) =
        read_line-whole max_filename f (everything ++ 10 ∷ rest) plain (omega arith) in
      let perm : read_line 16 (everything ++ 10 ∷ rest) ≡ (everything, rest) =
        read_line-whole 16 everything rest (ground arith) (omega arith) in
      rw (typed_in, choice, name, perm, chmod_succeeds s u.username)
        (ap
          (λ (r : Bool × Disk). again (
            show w rest
              (log_action (env w.rounds).io u.username (codes "CHMOD") f (codes "SUCCESS") r.1)
              (text (codes "Permissions updated.") ∷ [])))
          (chmod_is s u.username))

  read_round :
      {m : FileMeta} {bytes : Bytes}
      → (env w.rounds).io.storage_read ≡ true
      → find_file_meta (env w.rounds).io f w.disk ≡ some m
      → check_permission u.username u.group m perm_read ≡ true
      → w.disk.storage (storage_path f) ≡ some bytes
      → w.input ≡ typed (codes "2" ∷ f ∷ [] ∷ []) rest
      → session_body env u w
        ≡ again (
            show w rest
              (log_action (env w.rounds).io u.username (codes "READ") f (codes "SUCCESS") w.disk)
              (content (c_str (take 4095 bytes)) ∷ []))
  unfolding session_round choose choose_read str_eq fs_read_file
  read_round {m} {bytes} opens found may stored typed_in =
      let io = (env w.rounds).io in
      let after = f ++ 10 ∷ (10 ∷ rest) in
      let choice : read_line 8 (codes "2" ++ 10 ∷ after) ≡ (codes "2", after) =
        read_line-whole 8 (codes "2") after (ground arith) (omega arith) in
      let name : read_line max_filename after ≡ (f, 10 ∷ rest) =
        read_line-whole max_filename f (10 ∷ rest) plain (omega arith) in
      let no_pass : read_line max_password (10 ∷ rest) ≡ ([], rest) =
        read_line-whole max_password [] rest tt (omega arith) in
      let read : fs_read_file io u.username u.group f none 4096 w.disk ≡ (
        some (take 4095 bytes),
        log_action io u.username (codes "READ") f (codes "SUCCESS") w.disk,
      ) =
        ap (λ (o : Option FileMeta). read_found io u.username u.group f none 4096 w.disk o) found
        ∙ ground (arith, may, opens, stored) in
      rw (typed_in, choice, name, no_pass)
        (ap (λ (r : Option Bytes × Disk). again (show w rest r.1 (shown r.0 ∷ []))) read)

forever-two :
    (body : World → Round Unit) (w w1 w2 : World)
    → body w ≡ again w1
    → body w1 ≡ again w2
    → (forever body 2 w).world ≡ w2
unfolding forever
forever-two body w w1 w2 e1 e2 =
    ap (λ r. (continue (forever body 1) r).world) e1
    ∙ ap (λ r. (continue (forever body 0) r).world) e2

-- Any user in a session, whatever the record of a file grants, is shown its bytes after two choices:
-- `6`, which makes it `rwxrwxrwx` for every user, and `2`. (The database and the file can be opened,
-- there are at most 1024 records, and the file's name fits the array.)
pub chmod-discloses :
    (env : ℕ → Env) (u : User) (w : World) (f rest bytes : Bytes) (m : FileMeta)
    → IsPlain f
    → length f < 63
    → Stored (env w.rounds).io f w.disk m bytes
    → (env (w.rounds + 1)).io.metas_read ≡ true
    → (env (w.rounds + 1)).io.storage_read ≡ true
    → w.input ≡ typed (codes "6" ∷ f ∷ codes "rwxrwxrwx" ∷ codes "2" ∷ f ∷ [] ∷ []) rest
    → (session_loop env u 2 w).world.printed
      ≡ (w.printed ++ text (codes "Permissions updated.") ∷ [])
        ++ content (c_str (take 4095 bytes)) ∷ []
unfolding session_loop
chmod-discloses env u w f rest bytes m plain short s reads opens typed_in =
    let later = typed (codes "2" ∷ f ∷ [] ∷ []) rest in
    let w1 = show w later (chmodded s u.username) (text (codes "Permissions updated.") ∷ []) in
    let may = open_to_all u.username u.group (opened s u.username) refl in
    let found = finds s u.username (env w1.rounds).io reads in
    let second = read_round env u w1 f rest plain short opens found may (keeps s u.username) refl in
    ap (λ (v : World). v.printed)
      (forever-two (session_body env u) w w1 _ (chmod_round env u w f later plain short s typed_in)
        second)
