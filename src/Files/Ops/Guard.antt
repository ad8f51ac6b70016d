-- ===== src/Files/Ops/Guard.antt =====
-- No operation of fileops.c acts without the permission for it, and none that fails leaves a trace
-- but in the audit log.
use samuel_basnet_240512_st.Prelude.{
  ℕ, Bytes, codes, Bool, true, false, not, Option, none, some, ◌≡◌, refl, ◌⊎◌, inl, inr,
  if◌then◌else◌, arith,
}
use samuel_basnet_240512_st.Files.Disk.{FileMeta, PermType, perm_read, perm_write, Disk, Io}
use samuel_basnet_240512_st.Files.Audit.{log_action}
use samuel_basnet_240512_st.Files.Perms.{find_file_meta, check_permission}
use samuel_basnet_240512_st.Files.Ops.{
  bool_eq, refuse, read_content, read_found, fs_read_file, write_found, fs_write_file, delete_found,
  fs_delete_file, transform_content, transform_found, transform_file, stored_at, storage_path,
}

-- The users, the records and the stored files are the same.
pub record SameFiles (d d' : Disk) : Type 0 where
  pub users : d'.users ≡ d.users
  pub metas : d'.metas ≡ d.metas
  pub storage : d'.storage ≡ d.storage

pub SameFiles-refl : (d : Disk) → SameFiles d d
SameFiles-refl d = record { users = refl; metas = refl; storage = refl }

pub log-SameFiles : (io : Io) (u a t r : Bytes) (d : Disk) → SameFiles d (log_action io u a t r d)
unfolding log_action
log-SameFiles io u a t r d = record {
  users = ground arith;
  metas = ground arith;
  storage = ground arith;
}

-- The file has a record, and by it the user may do this.
pub record Allowed (io : Io) (u g f : Bytes) (p : PermType) (d : Disk) : Type 0 where
  pub meta : FileMeta
  pub recorded : find_file_meta io f d ≡ some meta
  pub granted : check_permission u g meta p ≡ true

-- Returned 1 and allowed, or returned 0 and changed nothing.
abbrev pub Guarded : Type 0 → Disk → Bool × Disk → Type 0
Guarded allowed d r = ((r.0 ≡ true) × allowed) ⊎ ((r.0 ≡ false) × SameFiles d r.1)

module _ (io : Io) (u g f : Bytes) (d : Disk) where
  refuse-Guarded : {A : Type 0} (a r : Bytes) → Guarded A d (refuse io u a f r d)
  refuse-Guarded a r = inr (refl, log-SameFiles io u a f r d)

  Guarded-if :
      {A : Type 0} (b : Bool) (r r' : Bool × Disk)
      → (b ≡ true → Guarded A d r)
      → (b ≡ false → Guarded A d r')
      → Guarded A d (if b then r else r')
  Guarded-if true r r' h h' = h refl
  Guarded-if false r r' h h' = h' refl

  allowed :
      (p : PermType) (m : FileMeta)
      → find_file_meta io f d ≡ some m
      → not (check_permission u g m p) ≡ false
      → Allowed io u g f p d
  allowed p m e may = record { meta = m; recorded = e; granted = ground arith }

  write_found-Guarded :
      (pass : Option Bytes) (content : Bytes) (append : Bool) (o : Option FileMeta)
      → find_file_meta io f d ≡ o
      → Guarded (Allowed io u g f perm_write d) d (write_found io u g f pass content append d o)
  write_found-Guarded pass content append none e =
      refuse-Guarded (codes "WRITE") (codes "FAILED_NOT_FOUND")
  write_found-Guarded pass content append (some m) e =
      Guarded-if (not (check_permission u g m perm_write)) _ _
        (λ no_write. refuse-Guarded (codes "WRITE") (codes "FAILED_PERMISSION_DENIED"))
        (λ may.
          Guarded-if (not io.memory) _ _
            (λ no_memory. refuse-Guarded (codes "WRITE") (codes "FAILED_MEMORY_ERROR"))
            (λ memory.
              Guarded-if (not io.storage_write) _ _
                (λ shut. refuse-Guarded (codes "WRITE") (codes "FAILED_IO_ERROR"))
                (λ opens. inl (refl, allowed perm_write m e may))))

  -- `fs_write_file`, with or without `append`, returns 1 only to a user who has the WRITE permission
  -- by the file's record; where it returns 0, no user, no record and no stored file has changed.
  pub write-Guarded :
      (pass : Option Bytes) (content : Bytes) (append : Bool)
      → Guarded (Allowed io u g f perm_write d) d (fs_write_file io u g f pass content append d)
  unfolding fs_write_file
  write-Guarded pass content append =
      write_found-Guarded pass content append (find_file_meta io f d) refl

  delete_found-Guarded :
      (o : Option FileMeta)
      → find_file_meta io f d ≡ o
      → Guarded (Allowed io u g f perm_write d) d (delete_found io u g f d o)
  delete_found-Guarded none e = refuse-Guarded (codes "DELETE") (codes "FAILED_NOT_FOUND")
  delete_found-Guarded (some m) e =
      Guarded-if (not (check_permission u g m perm_write)) _ _
        (λ no_write. refuse-Guarded (codes "DELETE") (codes "FAILED_PERMISSION_DENIED"))
        (λ may. inl (refl, allowed perm_write m e may))

  -- `fs_delete_file` returns 1 only to a user who has the WRITE permission by the file's record;
  -- where it returns 0, no user, no record and no stored file has changed.
  pub delete-Guarded : Guarded (Allowed io u g f perm_write d) d (fs_delete_file io u g f d)
  unfolding fs_delete_file
  delete-Guarded = delete_found-Guarded (find_file_meta io f d) refl

  -- `none` is the write through a null pointer.
  abbrev pub GuardedOrFault : Type 0 → Option (Bool × Disk) → Type 0
  GuardedOrFault allowed none = allowed
  GuardedOrFault allowed (some r) = Guarded allowed d r

  Fault-if :
      (A : Type 0) (b : Bool) (o o' : Option (Bool × Disk))
      → (b ≡ true → GuardedOrFault A o)
      → (b ≡ false → GuardedOrFault A o')
      → GuardedOrFault A (if b then o else o')
  Fault-if A true o o' h h' = h refl
  Fault-if A false o o' h h' = h' refl

  transform_content-Guarded :
      (A : Type 0) (pass : Bytes) (set_to : Bool) (action : Bytes) (o : Option Bytes)
      → A
      → GuardedOrFault A (transform_content io u f pass set_to action d o)
  transform_content-Guarded A pass set_to action none a =
      refuse-Guarded action (codes "FAILED_STORAGE_MISSING")
  transform_content-Guarded A pass set_to action (some content) a =
      Fault-if A (not io.memory) _ _
        (λ no_memory. refuse-Guarded action (codes "FAILED_MEMORY_ERROR"))
        (λ memory. Fault-if A (not io.storage_write) _ _ (λ shut. a) (λ opens. inl (refl, a)))

  transform_found-Guarded :
      (pass : Bytes) (expected set_to : Bool) (action : Bytes) (o : Option FileMeta)
      → find_file_meta io f d ≡ o
      → GuardedOrFault
          (Allowed io u g f perm_write d)
          (transform_found io u g f pass expected set_to action d o)
  transform_found-Guarded pass expected set_to action none e =
      refuse-Guarded action (codes "FAILED_NOT_FOUND")
  transform_found-Guarded pass expected set_to action (some m) e =
      Fault-if (Allowed io u g f perm_write d) (not (check_permission u g m perm_write)) _ _
        (λ no_write. refuse-Guarded action (codes "FAILED_PERMISSION_DENIED"))
        (λ may.
          Fault-if (Allowed io u g f perm_write d) (not (bool_eq m.is_encrypted expected)) _ _
            (λ wrong. refuse-Guarded action (codes "FAILED_WRONG_STATE"))
            (λ right.
              transform_content-Guarded (Allowed io u g f perm_write d) pass set_to action
                (stored_at io (storage_path f) d) (allowed perm_write m e may)))

  -- `transform_file`, which encrypts and decrypts, rewrites a file only for a user who has the WRITE
  -- permission by its record; where it returns 0, no user, no record and no stored file has changed.
  pub transform-Guarded :
      (pass : Bytes) (expected set_to : Bool) (action : Bytes)
      → GuardedOrFault
          (Allowed io u g f perm_write d)
          (transform_file io u g f pass expected set_to action d)
  unfolding transform_file
  transform-Guarded pass expected set_to action =
      transform_found-Guarded pass expected set_to action (find_file_meta io f d) refl

  -- Read, or not: the files stay as they are.
  abbrev pub ReadGuarded : Option Bytes × Disk → Type 0
  ReadGuarded r = SameFiles d r.1 × ((r.0 ≡ none) ⊎ Allowed io u g f perm_read d)

  ReadGuarded-if :
      (b : Bool) (r r' : Option Bytes × Disk)
      → (b ≡ true → ReadGuarded r)
      → (b ≡ false → ReadGuarded r')
      → ReadGuarded (if b then r else r')
  ReadGuarded-if true r r' h h' = h refl
  ReadGuarded-if false r r' h h' = h' refl

  read_content-Guarded :
      (pass : Option Bytes) (size : ℕ) (m : FileMeta) (o : Option Bytes)
      → Allowed io u g f perm_read d
      → ReadGuarded (read_content io u f pass size m d o)
  read_content-Guarded pass size m none a =
      (log-SameFiles io u (codes "READ") f (codes "FAILED_STORAGE_MISSING") d, inl refl)
  read_content-Guarded pass size m (some content) a =
      (log-SameFiles io u (codes "READ") f (codes "SUCCESS") d, inr a)

  read_found-Guarded :
      (pass : Option Bytes) (size : ℕ) (o : Option FileMeta)
      → find_file_meta io f d ≡ o
      → ReadGuarded (read_found io u g f pass size d o)
  read_found-Guarded pass size none e =
      (log-SameFiles io u (codes "READ") f (codes "FAILED_NOT_FOUND") d, inl refl)
  read_found-Guarded pass size (some m) e =
      ReadGuarded-if (not (check_permission u g m perm_read)) _ _
        (λ no_read.
          (log-SameFiles io u (codes "READ") f (codes "FAILED_PERMISSION_DENIED") d, inl refl))
        (λ may.
          read_content-Guarded pass size m (stored_at io (storage_path f) d)
            (allowed perm_read m e may))

  -- `fs_read_file` gives content only to a user who has the READ permission by the file's record,
  -- and changes no user, no record and no stored file.
  pub read-Guarded :
      (pass : Option Bytes) (size : ℕ) → ReadGuarded (fs_read_file io u g f pass size d)
  unfolding fs_read_file
  read-Guarded pass size = read_found-Guarded pass size (find_file_meta io f d) refl

  -- Writing, appending, deleting, encrypting and decrypting succeed only for a user who has the WRITE
  -- permission by the file's record, and reading gives content only to a user who has the READ
  -- permission; where an operation returns 0, and wherever a file is read, no user, no record and no
  -- stored file has changed. (A write through a null pointer, which `transform_file` can come to,
  -- counts as success.)
  pub operations-Guarded :
      (pass : Option Bytes) (content : Bytes) (append : Bool) (key : Bytes) (expected set_to : Bool)
      (action : Bytes) (size : ℕ)
      → Guarded (Allowed io u g f perm_write d) d (fs_write_file io u g f pass content append d)
        × Guarded (Allowed io u g f perm_write d) d (fs_delete_file io u g f d)
        × GuardedOrFault
            (Allowed io u g f perm_write d)
            (transform_file io u g f key expected set_to action d)
        × ReadGuarded (fs_read_file io u g f pass size d)
  operations-Guarded pass content append key expected set_to action size = (
    write-Guarded pass content append,
    delete-Guarded,
    transform-Guarded key expected set_to action,
    read-Guarded pass size,
  )
