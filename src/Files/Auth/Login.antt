-- ===== src/Files/Auth/Login.antt =====
-- Registration and login together.
use samuel_basnet_240512_st.Prelude.{
  ℕ, ◌≤◌, ◌<◌, Bytes, codes, true, false, Option, none, some, List, [], ◌∷◌, ◌++◌, leb,
  if◌then◌else◌, length, take_all, str_eq, strn_eq, strn_eq_refl, ◌≡◌, refl, ◌∙◌, arith, Bool-cases,
  Option-cases, inl, inr,
}
use samuel_basnet_240512_st.Files.Disk.{max_username, User, Disk, Io}
use samuel_basnet_240512_st.Files.Audit.{log_action}
use samuel_basnet_240512_st.Files.Crypto.{generate_salt, hash_password}
use samuel_basnet_240512_st.Files.Auth.{
  find_in, find_user, invalid_input, new_user, register_user, login_found, login_user,
}

pub log-users : (io : Io) (u a t r : Bytes) (d : Disk) → (log_action io u a t r d).users ≡ d.users
unfolding log_action
log-users io u a t r d = ground arith

find-append-none :
    (name : Bytes) (us : List User) (u : User)
    → find_in name us ≡ none
    → find_in name (us ++ u ∷ []) ≡ (if strn_eq max_username u.username name then some u else none)
unfolding find_in
find-append-none name [] u h = refl
find-append-none name (x ∷ us) u h = ground (arith, find-append-none name us u)

pub find-append-some :
    (name : Bytes) (us : List User) (u x : User)
    → find_in name us ≡ some x
    → find_in name (us ++ u ∷ []) ≡ some x
unfolding find_in
find-append-some name [] u x h = absurd (cc)
find-append-some name (y ∷ us) u x h = ground (arith, find-append-some name us u x)

length-lt : (a b : ℕ) → leb a b ≡ false → b < a
length-lt a b h = ground arith

-- Where `users.dat` can be read, a registration that succeeds is of a name that was free, and adds
-- one record at the end.
registered :
    (io : Io) (rands : List ℕ) (name password group : Bytes) (d : Disk)
    → io.users_read ≡ true
    → (register_user io rands name password group d).0 ≡ true
    → (find_in name d.users ≡ none)
      × (length name ≤ 31)
      × ((register_user io rands name password group d).1.users
          ≡ d.users ++ new_user name password group (generate_salt rands) ∷ [])
unfolding register_user find_user
registered io rands name password group d opens ok =
    elim (Bool-cases (invalid_input name password group)) [
      | inl bad ↦ absurd (ground arith)
      | inr good ↦ elim (Option-cases (find_in name d.users)) [
        | inr (x, e) ↦ absurd (ground arith)
        | inl free ↦ elim (Bool-cases io.users_append) [
          | inr shut ↦ absurd (ground arith)
          | inl appends ↦ (
            free,
            ground arith,
            ground (
              arith,
              log-users io name (codes "REGISTER") name (codes "SUCCESS") (record d {
                users = d.users ++ new_user name password group (generate_salt rands) ∷ [];
              }),
            ),
          )
        ]
      ]
    ]

-- The outcome of a login, from the record that is found.
abbrev outcome : Bytes → Option User → Option User
outcome password none = none
outcome password (some u) = if str_eq (hash_password password u.salt) u.hash then some u else none

login_found-outcome :
    (io : Io) (name password : Bytes) (d : Disk) (o : Option User)
    → (login_found io name password d o).0 ≡ outcome password o
login_found-outcome io name password d none = refl
login_found-outcome io name password d (some u) = ground arith

find_user-opens :
    (io : Io) (name : Bytes) (d : Disk)
    → io.users_read ≡ true
    → find_user io name d ≡ find_in name d.users
unfolding find_user
find_user-opens io name d opens = ground arith

login-outcome :
    (io : Io) (name password : Bytes) (d : Disk)
    → io.users_read ≡ true
    → (login_user io name password d).0 ≡ outcome password (find_in name d.users)
unfolding login_user
login-outcome io name password d opens =
    rw (find_user-opens io name d opens)
      (login_found-outcome io name password d (find_in name d.users))

outcome-some :
    (password : Bytes) (o : Option User) (u : User) → outcome password o ≡ some u → o ≡ some u
outcome-some password none u h = cc
outcome-some password (some x) u h = ground arith

register-taken :
    (io : Io) (rands : List ℕ) (name password group : Bytes) (d : Disk) (u : User)
    → find_user io name d ≡ some u
    → ((register_user io rands name password group d).0 ≡ false)
      × ((register_user io rands name password group d).1.users ≡ d.users)
unfolding register_user
register-taken io rands name password group d u e = ground (
  arith,
  log-users io name (codes "REGISTER") name (codes "FAILED_INVALID_INPUT") d,
  log-users io name (codes "REGISTER") name (codes "FAILED_ALREADY_EXISTS") d,
)

module _ (io : Io) (rands : List ℕ) (name password group : Bytes) (d : Disk)
    (opens : io.users_read ≡ true)
    (ok : (register_user io rands name password group d).0 ≡ true) where
  abbrev after : Disk
  after = (register_user io rands name password group d).1

  -- After a registration that succeeds, with a database that can be read, a login with the same name succeeds exactly with the
  -- passwords whose salted hash is the stored one, so with the password that was registered, and
  -- gives the user that name and that group (cut to the 31 bytes of its array).
  pub register-login :
      (attempt : Bytes)
      → (login_user io name attempt after).0 ≡ (
          if str_eq
            (hash_password attempt (generate_salt rands))
            (hash_password password (generate_salt rands))
          then some (new_user name password group (generate_salt rands))
          else none)
  register-login attempt =
      let (free, short, users) = registered io rands name password group d opens ok in
      rw
        (
          login-outcome io name attempt after opens,
          users,
          find-append-none name d.users (new_user name password group (generate_salt rands)) free,
          take_all 31 name short,
          strn_eq_refl max_username name,
        )
        refl

  -- After a registration that succeeds, with a database that can be read, the same name cannot be
  -- registered again, with any password or group, and the attempt leaves
  -- the users as they were.
  pub register-twice :
      (rands' : List ℕ) (password' group' : Bytes)
      → ((register_user io rands' name password' group' after).0 ≡ false)
        × ((register_user io rands' name password' group' after).1.users ≡ after.users)
  register-twice rands' password' group' =
      let (free, short, users) = registered io rands name password group d opens ok in
      let u = new_user name password group (generate_salt rands) in
      let taken : find_in name after.users ≡ some u =
        rw
          (
            users,
            find-append-none name d.users u free,
            take_all 31 name short,
            strn_eq_refl max_username name,
          )
          refl in
      register-taken io rands' name password' group' after u
        (find_user-opens io name after opens ∙ taken)

  -- With a database that can be read, a registration that succeeds takes no other user's login away: who could log in before still can, with the
  -- same result.
  pub register-others :
      (other attempt : Bytes) (u : User)
      → (login_user io other attempt d).0 ≡ some u
      → (login_user io other attempt after).0 ≡ some u
  register-others other attempt u h =
      let (free, short, users) = registered io rands name password group d opens ok in
      let before : outcome attempt (find_in other d.users) ≡ some u =
        rw (login-outcome io other attempt d opens) at h in
      let found = outcome-some attempt (find_in other d.users) u before in
      rw
        (
          login-outcome io other attempt after opens,
          users,
          find-append-some other d.users (new_user name password group (generate_salt rands)) u
              found,
        )
        (rw found at before)
