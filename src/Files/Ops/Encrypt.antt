-- ===== src/Files/Ops/Encrypt.antt =====
-- Encryption and decryption of stored files.
use samuel_basnet_240512_st.Prelude.{
  ℕ, ◌-◌, ◌<◌, Bytes, codes, Bool, true, false, Option, none, some, List, ◌≡◌, refl, ap, ◌∙◌, sym,
  if◌then◌else◌, arith, str_eq, str_eq_refl, strn_eq, strn_eq_refl, length, take_all,
}
use samuel_basnet_240512_st.Files.Disk.{max_filename, FileMeta, perm_read, perm_write, Disk, Io}
use samuel_basnet_240512_st.Files.Audit.{log_action}
use samuel_basnet_240512_st.Files.Crypto.{xor_cipher}
use samuel_basnet_240512_st.Files.Crypto.Xor.{xor_cipher-twice}
use samuel_basnet_240512_st.Files.Perms.{
  find_meta, find_file_meta, check_permission, set_encrypted, set_encrypted_flag,
}
use samuel_basnet_240512_st.Files.Perms.Records.{
  Rewrites, rewrites, rewrite_meta_matching_lem, length-flagged, edit_found,
}
use samuel_basnet_240512_st.Files.Ops.{
  write_file, transform_found, transform_file, fs_encrypt_file, fs_decrypt_file, storage_path,
  read_found, read_content, fs_read_file, cipher_if,
}
use samuel_basnet_240512_st.Files.Ops.Guard.{SameFiles, log-SameFiles}

-- A file that its user may write, in a system where nothing fails.
pub record Ready (io : Io) (u g f : Bytes) (d : Disk) (m : FileMeta) (content : Bytes)
    : Type 0 where
  pub recorded : find_file_meta io f d ≡ some m
  pub writable : check_permission u g m perm_write ≡ true
  pub rewrites : Rewrites io d
  pub reads : io.storage_read ≡ true
  pub writes : io.storage_write ≡ true
  pub memory : io.memory ≡ true
  pub stored : d.storage (storage_path f) ≡ some content

-- The same records for other files, and the same content of other paths.
pub record SameOthers (io : Io) (f : Bytes) (d d' : Disk) : Type 0 where
  pub metas :
      (j : Bytes)
      → strn_eq max_filename f j ≡ false
      → find_file_meta io j d' ≡ find_file_meta io j d
  pub storage : (q : Bytes) → str_eq (storage_path f) q ≡ false → d'.storage q ≡ d.storage q
  pub users : d'.users ≡ d.users

abbrev pub flagged : FileMeta → Bool → FileMeta
flagged m flag = record m { is_encrypted = flag }

-- What a transformation leaves behind.
pub record Transformed (io : Io) (u g f pass : Bytes) (d : Disk) (m : FileMeta) (content : Bytes)
    (set_to : Bool) (o : Option (Bool × Disk)) : Type 0 where
  pub after : Disk
  pub returned : o ≡ some (true, after)
  pub ready : Ready io u g f after (flagged m set_to) (xor_cipher content pass)
  pub others : SameOthers io f d after

module _ {io : Io} {u g f : Bytes} {d : Disk} {m : FileMeta} {content : Bytes}
    (r : Ready io u g f d m content) (pass : Bytes) (set_to : Bool) (action : Bytes) where
  open r use {recorded, writable, reads, writes, memory, stored}

  -- the file with its new content, and the disk after the flag and the log
  abbrev written : Disk
  written = write_file (storage_path f) (xor_cipher content pass) d

  abbrev flag_set : Disk
  flag_set = (set_encrypted_flag io f set_to written).1

  abbrev final : Disk
  final = log_action io u action f (codes "SUCCESS") flag_set

  find-same-metas :
      (j : Bytes) (a b : Disk) → a.metas ≡ b.metas → find_file_meta io j a ≡ find_file_meta io j b
  unfolding find_file_meta
  find-same-metas j a b e =
      ap (λ (ms : List FileMeta). if io.metas_read then find_meta j ms else none) e

  flag-lem :
      (j : Bytes)
      → find_file_meta io j flag_set ≡ (
          if strn_eq max_filename f j
          then edit_found (set_encrypted set_to) (find_file_meta io j written)
          else find_file_meta io j written)
  unfolding set_encrypted_flag
  flag-lem j = (rewrite_meta_matching_lem io f j (set_encrypted set_to) written r.rewrites).1

  logged : SameFiles flag_set final
  logged = log-SameFiles io u action f (codes "SUCCESS") flag_set

  flag-others : (flag_set.users ≡ d.users) × (flag_set.storage ≡ written.storage)
  unfolding set_encrypted_flag
  flag-others =
      let lem = rewrite_meta_matching_lem io f f (set_encrypted set_to) written r.rewrites in
      (lem.2, lem.3)

  flag-length : length flag_set.metas ≡ length d.metas
  unfolding set_encrypted_flag
  flag-length =
      ap (λ (p : Bool × Disk). length p.1.metas)
        (rewrites io f (set_encrypted set_to) written r.rewrites)
      ∙ length-flagged f set_to d.metas

  find-final :
      (j : Bytes)
      → find_file_meta io j final ≡ (
          if strn_eq max_filename f j
          then edit_found (set_encrypted set_to) (find_file_meta io j d)
          else find_file_meta io j d)
  find-final j =
      find-same-metas j final flag_set logged.metas
      ∙ flag-lem j
      ∙ ap
          (λ (o : Option FileMeta).
            if strn_eq max_filename f j then edit_found (set_encrypted set_to) o else o)
          (find-same-metas j written d refl)

  final-storage :
      (q : Bytes)
      → final.storage q
        ≡ (if str_eq (storage_path f) q then some (xor_cipher content pass) else d.storage q)
  final-storage q = ap (λ (s : Bytes → Option Bytes). s q) (logged.storage ∙ flag-others.1)

  final-content : final.storage (storage_path f) ≡ some (xor_cipher content pass)
  final-content = rw (final-storage (storage_path f), str_eq_refl (storage_path f)) refl

  final-Ready : Ready io u g f final (flagged m set_to) (xor_cipher content pass)
  unfolding check_permission
  final-Ready = record {
    recorded = rw (find-final f, strn_eq_refl max_filename f, recorded) refl;
    writable = writable;
    rewrites = (
      r.rewrites.0,
      r.rewrites.1,
      omega (arith, r.rewrites.2, ap length logged.metas, flag-length),
    );
    reads = reads;
    writes = writes;
    memory = memory;
    stored = final-content;
  }

  transform-returns :
      transform_file io u g f pass m.is_encrypted set_to action d ≡ some (true, final)
  unfolding transform_file
  transform-returns =
      ap (λ (o : Option FileMeta). transform_found io u g f pass m.is_encrypted set_to action d o)
        recorded
      ∙ ground (arith, stored)

  transform-Transformed :
      Transformed io u g f pass d m content set_to
        (transform_file io u g f pass m.is_encrypted set_to action d)
  transform-Transformed = record {
    after = final;
    returned = transform-returns;
    ready = final-Ready;
    others = record {
      metas = λ j ne. find-final j ∙ ground arith;
      storage = λ q ne. final-storage q ∙ ground arith;
      users = logged.users ∙ flag-others.0;
    };
  }

SameOthers-trans :
    {io : Io} {f : Bytes} (a b c : Disk)
    → SameOthers io f a b
    → SameOthers io f b c
    → SameOthers io f a c
SameOthers-trans a b c p q = record {
  metas = λ j ne. q.metas j ne ∙ p.metas j ne;
  storage = λ path ne. q.storage path ne ∙ p.storage path ne;
  users = q.users ∙ p.users;
}

-- What comes of encrypting and then decrypting.
pub record RoundTrip (io : Io) (u g f pass : Bytes) (d : Disk) (m : FileMeta) (content : Bytes)
    : Type 0 where
  pub middle : Disk
  pub last : Disk
  pub encrypted : fs_encrypt_file io u g f pass d ≡ some (true, middle)
  pub hidden : middle.storage (storage_path f) ≡ some (xor_cipher content pass)
  pub marked : find_file_meta io f middle ≡ some (record m { is_encrypted = true })
  pub decrypted : fs_decrypt_file io u g f pass middle ≡ some (true, last)
  pub restored : last.storage (storage_path f) ≡ some content
  pub recorded : find_file_meta io f last ≡ some m
  pub others : SameOthers io f d last

-- Where no call of the C library fails and there are at most 1024 records: a plaintext file that its
-- user may write is encrypted and then decrypted with the same passphrase:
-- both calls return 1, in between its bytes are those of the cipher and its record is marked, and
-- afterwards its content and its record are what they were, and those of all other files too.
pub encrypt-decrypt :
    (io : Io) (u g f pass : Bytes) (d : Disk) (m : FileMeta) (content : Bytes)
    → Ready io u g f d m content
    → m.is_encrypted ≡ false
    → RoundTrip io u g f pass d m content
unfolding fs_encrypt_file fs_decrypt_file
encrypt-decrypt io u g f pass d m content r plain =
    let e = transform-Transformed r pass true (codes "ENCRYPT") in
    let t = transform-Transformed e.ready pass false (codes "DECRYPT") in
    let same : flagged m false ≡ m = ap (flagged m) (sym plain) in
    record {
      middle = e.after;
      last = t.after;
      encrypted =
          ap (λ (b : Bool). transform_file io u g f pass b true (codes "ENCRYPT") d) (sym plain)
          ∙ e.returned;
      hidden = e.ready.stored;
      marked = e.ready.recorded;
      decrypted = t.returned;
      restored = t.ready.stored ∙ ap some (xor_cipher-twice content pass);
      recorded = t.ready.recorded ∙ ap some same;
      others = SameOthers-trans d e.after t.after e.others t.others;
    }

read_content-lem :
    (io : Io) (u f : Bytes) (pass : Option Bytes) (size : ℕ) (m : FileMeta) (d : Disk)
    (content : Bytes)
    → length content < size
    → (read_content io u f pass size m d (some content)).0
      ≡ some (cipher_if m.is_encrypted pass content)
read_content-lem io u f pass size m d content fits =
    ap (λ (b : Bytes). some (cipher_if m.is_encrypted pass b))
      (take_all (size - 1) content (omega arith))

-- A read of a file that is ready, whose content fits the buffer.
pub read-Ready :
    (io : Io) (u g f : Bytes) (pass : Option Bytes) (size : ℕ) (d : Disk) (m : FileMeta)
    (content : Bytes)
    → Ready io u g f d m content
    → check_permission u g m perm_read ≡ true
    → length content < size
    → (fs_read_file io u g f pass size d).0 ≡ some (cipher_if m.is_encrypted pass content)
unfolding fs_read_file
read-Ready io u g f pass size d m content r may fits =
    ap (λ (o : Option FileMeta). (read_found io u g f pass size d o).0) r.recorded
    ∙ ground (arith, r.stored, r.reads, read_content-lem io u f pass size m d content)
