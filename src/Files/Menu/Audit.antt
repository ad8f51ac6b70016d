-- ===== src/Files/Menu/Audit.antt =====
-- What a choice of the session menu of main.c writes to the audit log.

use samuel_basnet_240512_st.Prelude.{
  [], ◌∷◌, c_str, Bytes, codes, Bool, true, false, ◌||◌, Option, none, some, ◌≡◌, refl,
  if◌then◌else◌, if-both, str_eq,
}
use samuel_basnet_240512_st.Files.Disk.{max_filename, max_password, User, Disk, Io}
use samuel_basnet_240512_st.Files.Audit.{log_action}
use samuel_basnet_240512_st.Files.Perms.{chmod_file}
use samuel_basnet_240512_st.Files.Ops.{write_action, fs_encrypt_file, fs_decrypt_file}
use samuel_basnet_240512_st.Files.Ops.Logged.{
  LoggedBy, ReadLogged, LoggedOrFault, chmod-audit, success, failure, failed, create-Logged,
  read-Logged, write-Logged, delete-Logged, transform-Logged,
}
use samuel_basnet_240512_st.Files.Menu.{
  text, content, show, reply, shown, max_line, World, Env, Round, again, pass_of, read_line,
  reply_or_fault, choose_create, choose_read, choose_write, choose_delete, choose_chmod,
  choose_encrypt, choose_decrypt, choose, session_round,
}
use samuel_basnet_240512_st.Files.Menu.Entries.{
  Entry, entry_for, not_found_or_denied, create_refusal, chmod_refusal, encrypt_refusal,
  decrypt_refusal, entry_of, told_success, told_refusal, EntryMade, Audited, typed_choice,
  typed_name,
}

reply-Audited :
    (io : Io) (u f action failing : Bytes) (w : World) (input yes_text no_text : Bytes)
    (r : Bool × Disk)
    → str_eq yes_text no_text ≡ false
    → LoggedBy io u f w.disk action failing r
    → EntryMade io u
        (some (record { action = action; failing = failing; target = f; refusal = no_text }))
        w
        (show w input r.1 (text (if r.0 then yes_text else no_text) ∷ []))
reply-Audited io u f action failing w input yes_text no_text (true, d) ne l =
    (true, l, told_success (text yes_text) ne refl)
reply-Audited io u f action failing w input yes_text no_text (false, d) ne l =
    (false, l, told_refusal refl)

shown-Audited :
    (io : Io) (u f : Bytes) (w : World) (input : Bytes) (r : Option Bytes × Disk)
    → ReadLogged io u f w.disk r
    → Audited io u
        (entry_for (codes "READ") f not_found_or_denied)
        w
        (again (show w input r.1 (shown r.0 ∷ [])))
shown-Audited io u f w input (none, d) l = (false, l, told_refusal refl)
shown-Audited io u f w input (some bytes, d) l =
    (true, l, told_success (content (c_str bytes)) refl refl)

fault-Audited :
    (io : Io) (u f action : Bytes) (w : World) (input yes_text no_text : Bytes)
    (r : Option (Bool × Disk))
    → str_eq yes_text no_text ≡ false
    → LoggedOrFault io u f w.disk action action r
    → Audited io u (entry_for action f no_text) w (reply_or_fault w input yes_text no_text r)
fault-Audited io u f action w input yes_text no_text none ne l = refl
fault-Audited io u f action w input yes_text no_text (some r) ne l =
    reply-Audited io u f action action w input yes_text no_text r ne l

write-Audited :
    (io : Io) (u f : Bytes) (w : World) (input : Bytes) (append : Bool) (r : Bool × Disk)
    → LoggedBy io u f w.disk (write_action append) (codes "WRITE") r
    → Audited io u
        (some (record {
          action = if append then codes "APPEND" else codes "WRITE";
          failing = codes "WRITE";
          target = f;
          refusal = not_found_or_denied;
        }))
        w
        (reply w input
          (if append then codes "File appended." else codes "File written.")
          not_found_or_denied
          r)
unfolding str_eq
write-Audited io u f w input true r l =
    reply-Audited io u f (codes "APPEND") (codes "WRITE") w input (codes "File appended.")
      not_found_or_denied r refl l
write-Audited io u f w input false r l =
    reply-Audited io u f (codes "WRITE") (codes "WRITE") w input (codes "File written.")
      not_found_or_denied r refl l

chmod-Logged :
    (io : Io) (u f : Bytes) (d : Disk) (r : Bool × Disk)
    → r.1.audit ≡ d.audit
    → LoggedBy io u f d (codes "CHMOD") (codes "CHMOD") (
      r.0,
      log_action io u (codes "CHMOD") f (if r.0 then codes "SUCCESS" else codes "FAILED") r.1,
    )
chmod-Logged io u f d (true, d1) same = success io u f d (codes "CHMOD") (codes "CHMOD") d1 same
chmod-Logged io u f d (false, d1) same =
    failure io u f d (codes "CHMOD") (codes "CHMOD") failed d1 same

module _ (env : Env) (u : User) (w : World) where
  abbrev RoundAudited : Option Entry → Round Unit → Type 0
  RoundAudited e r = Audited env.io u.username e w r

  encrypt-Audited :
      (input : Bytes)
      → RoundAudited
          (entry_for (codes "ENCRYPT") (read_line max_filename input).0 encrypt_refusal)
          (choose_encrypt env u w input)
  unfolding choose_encrypt fs_encrypt_file str_eq
  encrypt-Audited input =
      let (filename, input1) = read_line max_filename input in
      let (passphrase, input2) = read_line max_password input1 in
      fault-Audited env.io u.username filename (codes "ENCRYPT") w input2 (codes "File encrypted.")
        _ _ refl
        (transform-Logged env.io u.username filename w.disk u.group passphrase false true
          (codes "ENCRYPT"))

  decrypt-Audited :
      (input : Bytes)
      → RoundAudited
          (entry_for (codes "DECRYPT") (read_line max_filename input).0 decrypt_refusal)
          (choose_decrypt env u w input)
  unfolding choose_decrypt fs_decrypt_file str_eq
  decrypt-Audited input =
      let (filename, input1) = read_line max_filename input in
      let (passphrase, input2) = read_line max_password input1 in
      fault-Audited env.io u.username filename (codes "DECRYPT") w input2 (codes "File decrypted.")
        _ _ refl
        (transform-Logged env.io u.username filename w.disk u.group passphrase true false
          (codes "DECRYPT"))

  chmod-Audited :
      (input : Bytes)
      → RoundAudited
          (entry_for (codes "CHMOD") (read_line max_filename input).0 chmod_refusal)
          (choose_chmod env u w input)
  unfolding choose_chmod str_eq
  chmod-Audited input =
      let (filename, input1) = read_line max_filename input in
      let (perm_str, input2) = read_line 16 input1 in
      let r = chmod_file env.io filename perm_str w.disk in
      let result = if r.0 then codes "SUCCESS" else codes "FAILED" in
      reply-Audited env.io u.username filename (codes "CHMOD") (codes "CHMOD") w input2
        (codes "Permissions updated.") chmod_refusal
        (r.0, log_action env.io u.username (codes "CHMOD") filename result r.1) refl
        (chmod-Logged env.io u.username filename w.disk r
          (chmod-audit env.io filename perm_str w.disk))

  created_told : str_eq (codes "File created.") create_refusal ≡ false
  unfolding str_eq
  created_told = refl

  deleted_told : str_eq (codes "File deleted.") not_found_or_denied ≡ false
  unfolding str_eq
  deleted_told = refl

  bye : str_eq (codes "Logging out.") [] ≡ false
  unfolding str_eq
  bye = refl

  choose-Audited :
      (choice input : Bytes)
      → RoundAudited
          (entry_of choice (read_line max_filename input).0)
          (choose env u w choice input)
  unfolding choose choose_create choose_read choose_write choose_delete
  choose-Audited choice input =
      let (filename, input1) = read_line max_filename input in
      let (passphrase, input2) = read_line max_password input1 in
      let (perm_str, input3) = read_line 16 input1 in
      let d = w.disk in
      let append = str_eq choice (codes "4") in
      if-both RoundAudited (str_eq choice (codes "1"))
        (λ c1.
          reply-Audited env.io u.username filename (codes "CREATE") (codes "CREATE") w
            (read_line max_line input3).1 (codes "File created.") create_refusal _ created_told
            (create-Logged env.io u.username filename d u.group perm_str
              (read_line max_line input3).0))
        (λ n1.
          if-both RoundAudited (str_eq choice (codes "2"))
            (λ c2.
              shown-Audited env.io u.username filename w input2 _
                (read-Logged env.io u.username filename d u.group (pass_of passphrase) 4096))
            (λ n2.
              if-both RoundAudited (str_eq choice (codes "3") || append)
                (λ c3.
                  write-Audited env.io u.username filename w (read_line max_line input2).1 append _
                    (write-Logged env.io u.username filename d u.group (pass_of passphrase)
                      (read_line max_line input2).0 append))
                (λ n3.
                  if-both RoundAudited (str_eq choice (codes "5"))
                    (λ c5.
                      reply-Audited env.io u.username filename (codes "DELETE") (codes "DELETE") w
                        input1 (codes "File deleted.") not_found_or_denied _ deleted_told
                        (delete-Logged env.io u.username filename d u.group))
                    (λ n5.
                      if-both RoundAudited (str_eq choice (codes "6")) (λ c6. chmod-Audited input)
                        (λ n6.
                          if-both RoundAudited (str_eq choice (codes "7"))
                            (λ c7. encrypt-Audited input)
                            (λ n7.
                              if-both RoundAudited (str_eq choice (codes "8"))
                                (λ c8. decrypt-Audited input)
                                (λ n8.
                                  if-both RoundAudited (str_eq choice (codes "9"))
                                    (λ c9. (
                                      true,
                                      success env.io u.username (codes "-") d (codes "LOGOUT")
                                          (codes "LOGOUT") d refl,
                                      told_success (text (codes "Logging out.")) bye refl,
                                    ))
                                    (λ n9. refl))))))))

  pub round-Audited :
      RoundAudited (entry_of (typed_choice w) (typed_name w)) (session_round env u w)
  unfolding session_round
  round-Audited = choose-Audited (typed_choice w) (read_line 8 w.input).1
