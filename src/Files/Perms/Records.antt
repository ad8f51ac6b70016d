-- ===== src/Files/Perms/Records.antt =====
-- What `find_file_meta` finds after a record is added, changed or deleted.
use samuel_basnet_240512_st.Prelude.{
  ◌≤◌, Bytes, Bool, true, false, Option, none, some, List, [], ◌∷◌, ◌++◌, if◌then◌else◌, length,
  take, take_all, take-append_short, strn_eq, str_eq, strn_eq_iff, Bool-cases, Option-cases, inl,
  inr, ◌≡◌, refl, ap, ◌∙◌, arith, sym,
}
use samuel_basnet_240512_st.Files.Disk.{max_filename, FileMeta, Disk, Io}
use samuel_basnet_240512_st.Files.Perms.{
  names, find_meta, find_file_meta, Change, delete_record, set_permissions, set_encrypted,
  rewrite_loop, rewrite_meta_matching, max_records, create_file_meta, chmod_file,
  is_valid_perm_string, new_meta,
}

abbrev pub or_else : Option FileMeta → Option FileMeta → Option FileMeta
or_else none o = o
or_else (some m) o = some m

pub find-append :
    (j : Bytes) (ms : List FileMeta) (m : FileMeta)
    → find_meta j (ms ++ m ∷ []) ≡ or_else (find_meta j ms) (if names m j then some m else none)
unfolding find_meta
find-append j [] m = refl
find-append j (x ∷ ms) m = ground (arith, find-append j ms m)

-- What a change makes of a record.
abbrev pub edit : Change → FileMeta → Option FileMeta
edit delete_record m = none
edit (set_permissions p) m = some (record m { permissions = take 9 p })
edit (set_encrypted flag) m = some (record m { is_encrypted = flag })

abbrev pub edit_found : Change → Option FileMeta → Option FileMeta
edit_found c none = none
edit_found c (some m) = edit c m

same_name :
    (a b c : Bytes)
    → strn_eq max_filename a b ≡ true
    → strn_eq max_filename a c ≡ strn_eq max_filename b c
unfolding strn_eq
same_name a b c e = ap (λ (t : Bytes). str_eq t (take max_filename c)) ((strn_eq_iff 64 a b).0 e)

other_name :
    (a b c : Bytes)
    → strn_eq max_filename a b ≡ false
    → strn_eq max_filename a c ≡ true
    → strn_eq max_filename b c ≡ false
other_name a b c ne e = elim (Bool-cases (strn_eq max_filename b c)) [
  | inl bc ↦
      let ab =
        (strn_eq_iff 64 a b).1 ((strn_eq_iff 64 a c).0 e ∙ sym ((strn_eq_iff 64 b c).0 bc)) in
      absurd (cc)
  | inr h ↦ h
]

-- A change acts on the records of its file alone, whatever it is: another file's record is found as
-- before, and the file's own is found with the change, or no longer.
pub find-rewrite_loop :
    (filename j : Bytes) (c : Change) (ms : List FileMeta)
    → find_meta j (rewrite_loop filename c ms).1
      ≡ (if strn_eq max_filename filename j then edit_found c (find_meta j ms) else find_meta j ms)
unfolding find_meta rewrite_loop
find-rewrite_loop filename j c [] = ground arith
find-rewrite_loop filename j delete_record (m ∷ ms) = ground (
  arith,
  find-rewrite_loop filename j delete_record ms,
  same_name m.filename filename j,
  other_name m.filename filename j,
)
find-rewrite_loop filename j (set_permissions p) (m ∷ ms) = ground (
  arith,
  find-rewrite_loop filename j (set_permissions p) ms,
  same_name m.filename filename j,
  other_name m.filename filename j,
)
find-rewrite_loop filename j (set_encrypted flag) (m ∷ ms) = ground (
  arith,
  find-rewrite_loop filename j (set_encrypted flag) ms,
  same_name m.filename filename j,
  other_name m.filename filename j,
)

abbrev pub is_some : Option FileMeta → Bool
is_some none = false
is_some (some m) = true

pub rewrite_loop-found :
    (filename : Bytes) (c : Change) (ms : List FileMeta)
    → (rewrite_loop filename c ms).0 ≡ is_some (find_meta filename ms)
unfolding find_meta rewrite_loop
rewrite_loop-found filename c [] = refl
rewrite_loop-found filename c (m ∷ ms) = ground (arith, rewrite_loop-found filename c ms)

-- Setting the flag keeps the number of records.
pub length-flagged :
    (filename : Bytes) (flag : Bool) (ms : List FileMeta)
    → length (rewrite_loop filename (set_encrypted flag) ms).1 ≡ length ms
unfolding rewrite_loop
length-flagged filename flag [] = refl
length-flagged filename flag (m ∷ ms) = ground (arith, length-flagged filename flag ms)

-- Both database files can be opened, and the records all fit the array of `rewrite_meta_matching`.
abbrev pub Rewrites : Io → Disk → Type 0
Rewrites io d = (io.metas_read ≡ true) × (io.metas_write ≡ true) × (length d.metas ≤ max_records)

pub rewrites :
    (io : Io) (filename : Bytes) (c : Change) (d : Disk)
    → Rewrites io d
    → rewrite_meta_matching io filename c d ≡ (
        let (found, records) = rewrite_loop filename c d.metas in
        (found, record d { metas = records }))
unfolding rewrite_meta_matching
rewrites io filename c d h = rw (h.0, h.1, take_all max_records d.metas h.2)

-- With at most 1024 records in a database that can be opened, a change of a file's record says
-- whether the file has one, makes that change in it, and leaves what is found for every other file
-- as it was, and the users and the stored files too.
pub rewrite_meta_matching_lem :
    (io : Io) (filename j : Bytes) (c : Change) (d : Disk)
    → Rewrites io d
    → let (found, d') = rewrite_meta_matching io filename c d in
      (found ≡ is_some (find_file_meta io filename d))
      × (find_file_meta io j d' ≡ (
          if strn_eq max_filename filename j
          then edit_found c (find_file_meta io j d)
          else find_file_meta io j d))
      × (d'.users ≡ d.users)
      × (d'.storage ≡ d.storage)
unfolding find_file_meta
rewrite_meta_matching_lem io filename j c d h =
    rw (rewrites io filename c d h, h.0)
      (rewrite_loop-found filename c d.metas, find-rewrite_loop filename j c d.metas, refl, refl)

find-lost :
    (j filename : Bytes) (c : Change) (ms : List FileMeta)
    → find_meta j ms ≡ none
    → find_meta j (rewrite_loop filename c ms).1 ≡ none
find-lost j filename c ms e = rw (find-rewrite_loop filename j c ms, e) (ground arith)

-- With 1025 records, in a database that can be opened, a change of any file's permissions to a valid
-- string drops the last record: the file that only this record describes is found before and no
-- longer found afterwards.
pub record_lost :
    (io : Io) (filename j perm_str : Bytes) (ms : List FileMeta) (m : FileMeta) (d : Disk)
    → io.metas_read ≡ true
    → io.metas_write ≡ true
    → is_valid_perm_string perm_str ≡ true
    → d.metas ≡ ms ++ m ∷ []
    → length ms ≡ max_records
    → find_meta j ms ≡ none
    → names m j ≡ true
    → (find_file_meta io j d ≡ some m)
      × (find_file_meta io j (chmod_file io filename perm_str d).1 ≡ none)
unfolding find_file_meta chmod_file rewrite_meta_matching
record_lost io filename j perm_str ms m d opens writes valid all size absent named =
    let first : take max_records (ms ++ m ∷ []) ≡ ms =
      take-append_short max_records ms (m ∷ []) (omega arith)
      ∙ take_all max_records ms (omega arith) in
    (
      rw (opens, all, find-append j ms m, absent, named) refl,
      rw (valid, opens, writes, all, first)
          (find-lost j filename (set_permissions perm_str) ms absent),
    )

names-same : (m : FileMeta) (a b : Bytes) → strn_eq max_filename a b ≡ true → names m a ≡ names m b
unfolding strn_eq
names-same m a b e =
    ap (λ (t : Bytes). str_eq (take max_filename m.filename) t) ((strn_eq_iff 64 a b).0 e)

find-same :
    (a b : Bytes) (ms : List FileMeta)
    → strn_eq max_filename a b ≡ true
    → find_meta a ms ≡ find_meta b ms
unfolding find_meta
find-same a b [] e = refl
find-same a b (m ∷ ms) e = ground (arith, names-same m a b, find-same a b ms)

-- A record that was created for a name of at most 63 bytes, in a database that can be read, is
-- found, and what is found for another file stays as it was.
pub create_file_meta_lem :
    (io : Io) (filename owner group perm_str : Bytes) (j : Bytes) (d : Disk)
    → io.metas_read ≡ true
    → length filename ≤ 63
    → (create_file_meta io filename owner group perm_str d).0 ≡ true
    → find_file_meta io j (create_file_meta io filename owner group perm_str d).1 ≡ (
        if strn_eq max_filename filename j
        then some (new_meta filename owner group perm_str)
        else find_file_meta io j d)
unfolding find_file_meta create_file_meta
create_file_meta_lem io filename owner group perm_str j d opens fits ok =
    elim (Bool-cases (is_valid_perm_string perm_str)) [
      | inr bad ↦ absurd (ground arith)
      | inl valid ↦ elim (Option-cases (find_meta filename d.metas)) [
        | inr (x, e) ↦ absurd (ground arith)
        | inl fresh ↦ elim (Bool-cases io.metas_append) [
          | inr shut ↦ absurd (ground arith)
          | inl appends ↦
              rw
                (
                  valid,
                  opens,
                  fresh,
                  appends,
                  find-append j d.metas (new_meta filename owner group perm_str),
                  take_all 63 filename fits,
                )
                (ground (arith, find-same filename j d.metas))
        ]
      ]
    ]
