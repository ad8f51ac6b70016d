-- ===== src/Files/Perms/Check.antt =====
-- Permission strings, and what `check_permission` grants under a valid one.
use samuel_basnet_240512_st.Prelude.{
  ℕ, zero, suc, ◌+◌, Bytes, codes, true, false, [], ◌∷◌, ◌==◌, if◌then◌else◌, length, get_or, ◌≡◌,
  ◌↔◌, ◌⊎◌, inl, refl, arith, strn_eq,
}
use samuel_basnet_240512_st.Files.Disk.{
  max_username, max_group, FileMeta, PermType, perm_read, perm_write, perm_execute,
}
use samuel_basnet_240512_st.Files.Perms.{
  dash, perm_loop, is_valid_perm_string, base_index, perm_index, check_permission,
}

-- Position by position, the expected letter or a dash.
abbrev pub IsPerm : Bytes → Bytes → Type 0
IsPerm [] [] = Unit
IsPerm [] (e ∷ es) = ⊥
IsPerm (c ∷ cs) [] = ⊥
IsPerm (c ∷ cs) (e ∷ es) = ((c ≡ e) ⊎ (c ≡ dash)) × IsPerm cs es

perm_loop-IsPerm :
    (s expected : Bytes)
    → length s ≡ length expected
    → perm_loop s expected ≡ true
    → IsPerm s expected
unfolding perm_loop
perm_loop-IsPerm [] [] e h = tt
perm_loop-IsPerm [] (x ∷ xs) e h = absurd (omega arith)
perm_loop-IsPerm (c ∷ s) [] e h = absurd (omega arith)
perm_loop-IsPerm (c ∷ s) (x ∷ xs) e h = ground (arith, perm_loop-IsPerm s xs)

IsPerm-perm_loop : (s expected : Bytes) → IsPerm s expected → perm_loop s expected ≡ true
unfolding perm_loop
IsPerm-perm_loop [] expected h = refl
IsPerm-perm_loop (c ∷ s) [] h = refl
IsPerm-perm_loop (c ∷ s) (x ∷ xs) h = ground (arith, IsPerm-perm_loop s xs)

IsPerm-length : (s expected : Bytes) → IsPerm s expected → length s ≡ length expected
IsPerm-length [] [] h = refl
IsPerm-length [] (x ∷ xs) h = absurd h
IsPerm-length (c ∷ s) [] h = absurd h
IsPerm-length (c ∷ s) (x ∷ xs) h = omega (arith, IsPerm-length s xs h.1)

abbrev pub letters : Bytes
letters = codes "rwxrwxrwx"

-- A permission string is valid exactly when it has nine characters, each of which is the letter
-- that `rwxrwxrwx` has in its place or a dash.
pub is_valid_perm_string_iff : (s : Bytes) → (is_valid_perm_string s ≡ true) ↔ IsPerm s letters
unfolding is_valid_perm_string
is_valid_perm_string_iff s = (
  λ h. perm_loop-IsPerm s letters (ground arith) (ground arith),
  λ h. ground (arith, IsPerm-length s letters h, IsPerm-perm_loop s letters h),
)

IsPerm-at :
    (s expected : Bytes) (i : ℕ)
    → IsPerm s expected
    → (get_or s i 0 ≡ get_or expected i 0) ⊎ (get_or s i 0 ≡ dash)
IsPerm-at [] [] i h = inl refl
IsPerm-at [] (x ∷ xs) i h = absurd h
IsPerm-at (c ∷ s) [] i h = absurd h
IsPerm-at (c ∷ s) (x ∷ xs) zero h = h.0
IsPerm-at (c ∷ s) (x ∷ xs) (suc i) h = IsPerm-at s xs i h.1

-- The letter of a permission, and the class of users that someone is in for a file.
abbrev pub letter : PermType → ℕ
letter perm_read = b'r'
letter perm_write = b'w'
letter perm_execute = b'x'

pub data UserClass : Type 0 where
  owner group others : UserClass

abbrev pub class_of : Bytes → Bytes → FileMeta → UserClass
class_of username user_group m =
    if strn_eq max_username username m.owner
    then owner
    else if strn_eq max_group user_group m.group
    then group
    else others

abbrev pub place : UserClass → PermType → ℕ
place owner p = perm_index p
place group p = 3 + perm_index p
place others p = 6 + perm_index p

letter-place : (c : UserClass) (p : PermType) → get_or letters (place c p) 0 ≡ letter p
letter-place owner perm_read = refl
letter-place owner perm_write = refl
letter-place owner perm_execute = refl
letter-place group perm_read = refl
letter-place group perm_write = refl
letter-place group perm_execute = refl
letter-place others perm_read = refl
letter-place others perm_write = refl
letter-place others perm_execute = refl

letter-dash : (p : PermType) → (letter p == dash) ≡ false
letter-dash perm_read = refl
letter-dash perm_write = refl
letter-dash perm_execute = refl

place-base :
    (username user_group : Bytes) (m : FileMeta) (p : PermType)
    → base_index username user_group m + perm_index p ≡ place (class_of username user_group m) p
place-base username user_group m p = ground arith

-- Under a valid permission string a user may do something exactly when the letter for it stands in
-- its place among the three of the user's own class, whatever the other classes may do: the owner's
-- if the names agree, else the group's if the groups agree, else those of all others.
pub check_permission_lem :
    (username user_group : Bytes) (m : FileMeta) (p : PermType)
    → is_valid_perm_string m.permissions ≡ true
    → check_permission username user_group m p
      ≡ (get_or m.permissions (place (class_of username user_group m) p) 0 == letter p)
unfolding check_permission
check_permission_lem username user_group m p h =
    let c = class_of username user_group m in
    rw (place-base username user_group m p) (
      ground (
        arith,
        IsPerm-at m.permissions letters (place c p) ((is_valid_perm_string_iff m.permissions).0 h),
        letter-place c p,
        letter-dash p,
      ))
