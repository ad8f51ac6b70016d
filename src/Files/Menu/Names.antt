-- ===== src/Files/Menu/Names.antt =====
-- A user name that fills the array of main.c.
use samuel_basnet_240512_st.Prelude.{
  ℕ, zero, suc, ap₂, ◌≤◌, ◌<◌, Bytes, codes, false, [], ◌∷◌, ◌++◌, ◌≡◌, refl, ◌∙◌, arith, length,
  drop, take_all,
}
use samuel_basnet_240512_st.Files.Disk.{max_username, max_password, max_group}
use samuel_basnet_240512_st.Files.Audit.{log_action}
use samuel_basnet_240512_st.Files.Auth.{invalid_input, register_user}
use samuel_basnet_240512_st.Files.Menu.{World, Env, again, text, show, read_line, choose_register}
use samuel_basnet_240512_st.Files.Menu.Lines.{IsPlain, read_line-whole, read_line-cut}

drop_all : (n : ℕ) (l : Bytes) → length l ≤ n → drop n l ≡ []
drop_all zero [] h = refl
drop_all zero (c ∷ l) h = absurd (omega arith)
drop_all (suc n) [] h = refl
drop_all (suc n) (c ∷ l) h = drop_all n l (omega arith)

-- At the screen somebody registers a name of 31 bytes, a password of 1 to 30 bytes, both without
-- newline and NUL, and a group of at most 31 bytes. The input is valid for `register_user`, but the
-- registration is refused for invalid input: the newline of the name stays on the input and is read
-- as an empty password, the password is read as the group, and the line with the group is left for
-- the next choice.
pub long_name :
    (env : Env) (w : World) (name password group rest : Bytes)
    → IsPlain name
    → length name ≡ 31
    → IsPlain password
    → 0 < length password
    → length password < 31
    → length group < 32
    → let failed = codes "Registration failed (username may already exist, or input invalid)." in
      (invalid_input name password group ≡ false)
      × (choose_register env w (name ++ 10 ∷ (password ++ 10 ∷ (group ++ 10 ∷ rest)))
          ≡ again (
              show w
                (group ++ 10 ∷ rest)
                (log_action env.io name
                  (codes "REGISTER")
                  name
                  (codes "FAILED_INVALID_INPUT")
                  w.disk)
                (text failed ∷ [])))
unfolding choose_register register_user
long_name env w name password group rest plain long plain_password some_bytes short short_group =
    let tail = password ++ 10 ∷ (group ++ 10 ∷ rest) in
    let first : read_line max_username (name ++ 10 ∷ tail) ≡ (name, 10 ∷ tail) =
      read_line-cut max_username name tail plain (omega arith)
      ∙ ap₂ (λ (a b : Bytes). (a, b ++ 10 ∷ tail)) (take_all 31 name (omega arith))
          (drop_all 31 name (omega arith)) in
    let second : read_line max_password (10 ∷ tail) ≡ ([], tail) =
      read_line-whole max_password [] tail tt (omega arith) in
    let third : read_line max_group tail ≡ (password, group ++ 10 ∷ rest) =
      read_line-whole max_group password (group ++ 10 ∷ rest) plain_password (omega arith) in
    (ground arith, rw (first, second, third) (ground arith))
