-- ===== src/Files/Ops/Logged.antt =====
-- What the operations of fileops.c write to the audit log.
use samuel_basnet_240512_st.Prelude.{
  true, false, ℕ, Bytes, codes, Bool, not, Option, none, some, ◌++◌, ◌≡◌, refl, ap, ◌∙◌,
  if◌then◌else◌, arith, if-cases,
}
use samuel_basnet_240512_st.Files.Disk.{FileMeta, perm_read, perm_write, Disk, Io}
use samuel_basnet_240512_st.Files.Audit.{log_line, log_action}
use samuel_basnet_240512_st.Files.Perms.{
  find_file_meta, create_file_meta, is_valid_perm_string, append_meta, new_meta, delete_file_meta,
  set_encrypted_flag, chmod_file, Change, delete_record, set_permissions, set_encrypted,
  rewrite_meta_matching, check_permission,
}
use samuel_basnet_240512_st.Files.Ops.{
  bool_eq, fs_create_file, read_content, read_found, fs_read_file, write_found, fs_write_file,
  delete_found, fs_delete_file, transform_content, transform_found, transform_file, stored_at,
  storage_path, write_action,
}

-- The results that the operations and the menu log, but for `SUCCESS`.
pub data Failure : Type 0 where
  failed not_found permission_denied io_error memory_error storage_missing wrong_state : Failure
  meta_exists_or_invalid : Failure

abbrev pub failure_text : Failure → Bytes
failure_text failed = codes "FAILED"
failure_text not_found = codes "FAILED_NOT_FOUND"
failure_text permission_denied = codes "FAILED_PERMISSION_DENIED"
failure_text io_error = codes "FAILED_IO_ERROR"
failure_text memory_error = codes "FAILED_MEMORY_ERROR"
failure_text storage_missing = codes "FAILED_STORAGE_MISSING"
failure_text wrong_state = codes "FAILED_WRONG_STATE"
failure_text meta_exists_or_invalid = codes "FAILED_META_EXISTS_OR_INVALID"

-- The log with one entry more, if it can be opened.
abbrev pub with_entry : Io → (u action f result : Bytes) → Disk → Bytes
with_entry io u action f result d =
    if io.audit_append then d.audit ++ log_line io.now u action f result else d.audit

-- The log of the second disk is that of the first with exactly one entry more (none if it cannot be
-- opened): on success the one action with the result `SUCCESS`, else the other with a failure.
pub data Logged (io : Io) (u f action failing : Bytes) (ok : Bool) (d d' : Disk) : Type 0 where
  succeeds :
      ok ≡ true
      → d'.audit ≡ with_entry io u action f (codes "SUCCESS") d
      → Logged io u f action failing ok d d'
  fails :
      ok ≡ false
      → (r : Failure) → d'.audit ≡ with_entry io u failing f (failure_text r) d
      → Logged io u f action failing ok d d'

pub log-audit :
    (io : Io) (u action f result : Bytes) (d : Disk)
    → (log_action io u action f result d).audit
      ≡ (if io.audit_append then d.audit ++ log_line io.now u action f result else d.audit)
unfolding log_action
log-audit io u action f result d = ground arith

rewrite-audit :
    (io : Io) (f : Bytes) (c : Change) (d : Disk)
    → (rewrite_meta_matching io f c d).1.audit ≡ d.audit
unfolding rewrite_meta_matching
rewrite-audit io f c d = ground arith

pub chmod-audit :
    (io : Io) (f perm_str : Bytes) (d : Disk) → (chmod_file io f perm_str d).1.audit ≡ d.audit
unfolding chmod_file
chmod-audit io f perm_str d = ground (arith, rewrite-audit io f (set_permissions perm_str) d)

create-audit :
    (io : Io) (f owner group perm_str : Bytes) (d : Disk)
    → (create_file_meta io f owner group perm_str d).1.audit ≡ d.audit
unfolding create_file_meta
create-audit io f owner group perm_str d =
    if-cases (λ (r : Bool × Disk). r.1.audit ≡ d.audit) (not (is_valid_perm_string perm_str))
      (λ bad. refl) (λ good. appended (find_file_meta io f d))
  where
    appended :
        (o : Option FileMeta)
        → (append_meta io (new_meta f owner group perm_str) d o).1.audit ≡ d.audit
    appended none = ground arith
    appended (some m) = refl

module _ (io : Io) (u f : Bytes) (d : Disk) where
  entry-audit :
      (action result : Bytes) (d1 : Disk)
      → d1.audit ≡ d.audit
      → (log_action io u action f result d1).audit ≡ with_entry io u action f result d
  entry-audit action result d1 same =
      log-audit io u action f result d1
      ∙ ap (λ b. if io.audit_append then b ++ log_line io.now u action f result else b) same

  module _ (action failing : Bytes) where
    -- From a disk whose log is the same.
    pub success :
        (d1 : Disk)
        → d1.audit ≡ d.audit
        → Logged io u f action failing true d (log_action io u action f (codes "SUCCESS") d1)
    success d1 same = succeeds refl (entry-audit action (codes "SUCCESS") d1 same)

    pub failure :
        (r : Failure) (d1 : Disk)
        → d1.audit ≡ d.audit
        → Logged io u f action failing false d (log_action io u failing f (failure_text r) d1)
    failure r d1 same = fails refl r (entry-audit failing (failure_text r) d1 same)

    abbrev pub LoggedBy : Bool × Disk → Type 0
    LoggedBy r = Logged io u f action failing r.0 d r.1

    -- A fault writes nothing.
    abbrev pub LoggedOrFault : Option (Bool × Disk) → Type 0
    LoggedOrFault none = Unit
    LoggedOrFault (some r) = LoggedBy r

  pub create-Logged :
      (g perm_str content : Bytes)
      → LoggedBy (codes "CREATE") (codes "CREATE") (fs_create_file io u g f perm_str content d)
  unfolding fs_create_file delete_file_meta
  create-Logged g perm_str content =
      let (created, d') = create_file_meta io f u g perm_str d in
      let same = create-audit io f u g perm_str d in
      if-cases (LoggedBy (codes "CREATE") (codes "CREATE")) (not created)
        (λ no. failure (codes "CREATE") (codes "CREATE") meta_exists_or_invalid d' same)
        (λ yes_created.
          if-cases (LoggedBy (codes "CREATE") (codes "CREATE")) (not io.storage_write)
            (λ shut.
              failure (codes "CREATE") (codes "CREATE") io_error
                (rewrite_meta_matching io f delete_record d').1
                (rewrite-audit io f delete_record d' ∙ same))
            (λ opens. success (codes "CREATE") (codes "CREATE") _ same))

  write_found-Logged :
      (g : Bytes) (pass : Option Bytes) (content : Bytes) (append : Bool) (o : Option FileMeta)
      → LoggedBy
          (write_action append)
          (codes "WRITE")
          (write_found io u g f pass content append d o)
  write_found-Logged g pass content append none =
      failure (write_action append) (codes "WRITE") not_found d refl
  write_found-Logged g pass content append (some m) =
      if-cases (LoggedBy (write_action append) (codes "WRITE"))
        (not (check_permission u g m perm_write))
        (λ no. failure (write_action append) (codes "WRITE") permission_denied d refl)
        (λ may.
          if-cases (LoggedBy (write_action append) (codes "WRITE")) (not io.memory)
            (λ no. failure (write_action append) (codes "WRITE") memory_error d refl)
            (λ memory.
              if-cases (LoggedBy (write_action append) (codes "WRITE")) (not io.storage_write)
                (λ no. failure (write_action append) (codes "WRITE") io_error d refl)
                (λ opens. success (write_action append) (codes "WRITE") _ refl)))

  pub write-Logged :
      (g : Bytes) (pass : Option Bytes) (content : Bytes) (append : Bool)
      → LoggedBy
          (write_action append)
          (codes "WRITE")
          (fs_write_file io u g f pass content append d)
  unfolding fs_write_file
  write-Logged g pass content append =
      write_found-Logged g pass content append (find_file_meta io f d)

  delete_found-Logged :
      (g : Bytes) (o : Option FileMeta)
      → LoggedBy (codes "DELETE") (codes "DELETE") (delete_found io u g f d o)
  unfolding delete_file_meta
  delete_found-Logged g none = failure (codes "DELETE") (codes "DELETE") not_found d refl
  delete_found-Logged g (some m) =
      if-cases (LoggedBy (codes "DELETE") (codes "DELETE"))
        (not (check_permission u g m perm_write))
        (λ no. failure (codes "DELETE") (codes "DELETE") permission_denied d refl)
        (λ may. success (codes "DELETE") (codes "DELETE") _ (
          rewrite-audit io f delete_record _
          ∙ if-cases (λ (e : Disk). e.audit ≡ d.audit) io.storage_remove (λ removed. refl)
              (λ stays. refl)))

  pub delete-Logged :
      (g : Bytes) → LoggedBy (codes "DELETE") (codes "DELETE") (fs_delete_file io u g f d)
  unfolding fs_delete_file
  delete-Logged g = delete_found-Logged g (find_file_meta io f d)

  abbrev pub has_read : Option Bytes → Bool
  has_read none = false
  has_read (some bytes) = true

  abbrev pub ReadLogged : Option Bytes × Disk → Type 0
  ReadLogged r = Logged io u f (codes "READ") (codes "READ") (has_read r.0) d r.1

  read_found-Logged :
      (g : Bytes) (pass : Option Bytes) (size : ℕ) (o : Option FileMeta)
      → ReadLogged (read_found io u g f pass size d o)
  read_found-Logged g pass size none = failure (codes "READ") (codes "READ") not_found d refl
  read_found-Logged g pass size (some m) =
      if-cases ReadLogged (not (check_permission u g m perm_read))
        (λ no. failure (codes "READ") (codes "READ") permission_denied d refl)
        (λ may. content-Logged (stored_at io (storage_path f) d))
    where
      content-Logged : (o : Option Bytes) → ReadLogged (read_content io u f pass size m d o)
      content-Logged none = failure (codes "READ") (codes "READ") storage_missing d refl
      content-Logged (some b) = success (codes "READ") (codes "READ") d refl

  pub read-Logged :
      (g : Bytes) (pass : Option Bytes) (size : ℕ) → ReadLogged (fs_read_file io u g f pass size d)
  unfolding fs_read_file
  read-Logged g pass size = read_found-Logged g pass size (find_file_meta io f d)

  transform_content-Logged :
      (pass : Bytes) (set_to : Bool) (action : Bytes) (o : Option Bytes)
      → LoggedOrFault action action (transform_content io u f pass set_to action d o)
  unfolding set_encrypted_flag
  transform_content-Logged pass set_to action none = failure action action storage_missing d refl
  transform_content-Logged pass set_to action (some content) =
      if-cases (LoggedOrFault action action) (not io.memory)
        (λ no. failure action action memory_error d refl)
        (λ memory.
          if-cases (LoggedOrFault action action) (not io.storage_write) (λ shut. tt)
            (λ opens. success action action _ (rewrite-audit io f (set_encrypted set_to) _)))

  transform_found-Logged :
      (g pass : Bytes) (expected set_to : Bool) (action : Bytes) (o : Option FileMeta)
      → LoggedOrFault action action (transform_found io u g f pass expected set_to action d o)
  transform_found-Logged g pass expected set_to action none = failure action action not_found d refl
  transform_found-Logged g pass expected set_to action (some m) =
      if-cases (LoggedOrFault action action) (not (check_permission u g m perm_write))
        (λ no. failure action action permission_denied d refl)
        (λ may.
          if-cases (LoggedOrFault action action) (not (bool_eq m.is_encrypted expected))
            (λ wrong. failure action action wrong_state d refl)
            (λ right.
              transform_content-Logged pass set_to action (stored_at io (storage_path f) d)))

  pub transform-Logged :
      (g pass : Bytes) (expected set_to : Bool) (action : Bytes)
      → LoggedOrFault action action (transform_file io u g f pass expected set_to action d)
  unfolding transform_file
  transform-Logged g pass expected set_to action =
      transform_found-Logged g pass expected set_to action (find_file_meta io f d)
