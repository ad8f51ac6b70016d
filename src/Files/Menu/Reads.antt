-- ===== src/Files/Menu/Reads.antt =====
-- Every round of the loops of main.c reads on.
use samuel_basnet_240512_st.Prelude.{
  ℕ, ◌≤◌, ◌<◌, Bytes, codes, Bool, Option, none, some, [], ◌≡◌, ◌≢◌, refl, ap, arith, length,
  str_eq,
}
use samuel_basnet_240512_st.Files.Disk.{
  max_username, max_password, max_group, max_filename, User, Disk,
}
use samuel_basnet_240512_st.Files.Auth.{login_user}
use samuel_basnet_240512_st.Files.Ops.{fs_encrypt_file, fs_decrypt_file}
use samuel_basnet_240512_st.Files.Menu.{
  max_line, World, Env, Round, read_line, greet, choose_login, choose_register, login_round,
  reply_or_fault, choose_create, choose_read, choose_write, choose_delete, choose_chmod,
  choose_encrypt, choose_decrypt, choose, session_round,
}
use samuel_basnet_240512_st.Files.Menu.Keeps.{world_of}
use samuel_basnet_240512_st.Files.Menu.Lines.{read_line-le, choice-lt}

abbrev left : {A : Type 0} → Round A → ℕ
left r = length (world_of r).input

read_two : (m n : ℕ) (input : Bytes) → length (read_line n (read_line m input).1).1 ≤ length input
read_two m n input = omega (arith, read_line-le m input, read_line-le n (read_line m input).1)

read_three :
    (m n k : ℕ) (input : Bytes)
    → length (read_line k (read_line n (read_line m input).1).1).1 ≤ length input
read_three m n k input =
    omega (arith, read_two m n input, read_line-le k (read_line n (read_line m input).1).1)

greet-input :
    (w : World) (input : Bytes) (r : Option User × Disk)
    → (world_of (greet w input r)).input ≡ input
greet-input w input (none, d) = refl
greet-input w input (some u, d) = refl

fault-input :
    (w : World) (input a b : Bytes) (r : Option (Bool × Disk))
    → (world_of (reply_or_fault w input a b r)).input ≡ input
fault-input w input a b none = refl
fault-input w input a b (some r) = refl

module _ (env : Env) (w : World) where
  login-le : (input : Bytes) → left (choose_login env w input) ≤ length input
  unfolding choose_login
  login-le input =
      let (username, input1) = read_line max_username input in
      let (password, input2) = read_line max_password input1 in
      omega (
        arith,
        read_two max_username max_password input,
        ap length (greet-input w input2 (login_user env.io username password w.disk)),
      )

  register-le : (input : Bytes) → left (choose_register env w input) ≤ length input
  unfolding choose_register
  register-le input = read_three max_username max_password max_group input

  pub login_round-le : left (login_round env w) ≤ length (read_line 8 w.input).1
  unfolding login_round
  login_round-le =
      let rest = (read_line 8 w.input).1 in ground (arith, login-le rest, register-le rest)

  module _ (u : User) where
    encrypt-le : (input : Bytes) → left (choose_encrypt env u w input) ≤ length input
    unfolding choose_encrypt
    encrypt-le input =
        let (filename, input1) = read_line max_filename input in
        let (passphrase, input2) = read_line max_password input1 in
        omega (
          arith,
          read_two max_filename max_password input,
          ap length (
              fault-input w input2 _ _
                (fs_encrypt_file env.io u.username u.group filename passphrase w.disk)),
        )

    decrypt-le : (input : Bytes) → left (choose_decrypt env u w input) ≤ length input
    unfolding choose_decrypt
    decrypt-le input =
        let (filename, input1) = read_line max_filename input in
        let (passphrase, input2) = read_line max_password input1 in
        omega (
          arith,
          read_two max_filename max_password input,
          ap length (
              fault-input w input2 _ _
                (fs_decrypt_file env.io u.username u.group filename passphrase w.disk)),
        )

    create-le : (input : Bytes) → left (choose_create env u w input) ≤ length input
    unfolding choose_create
    create-le input = read_three max_filename 16 max_line input

    write-le :
        (input : Bytes) (append : Bool) → left (choose_write env u w input append) ≤ length input
    unfolding choose_write
    write-le input append = read_three max_filename max_password max_line input

    read-le : (input : Bytes) → left (choose_read env u w input) ≤ length input
    unfolding choose_read
    read-le input = read_two max_filename max_password input

    delete-le : (input : Bytes) → left (choose_delete env u w input) ≤ length input
    unfolding choose_delete
    delete-le input = read_line-le max_filename input

    chmod-le : (input : Bytes) → left (choose_chmod env u w input) ≤ length input
    unfolding choose_chmod
    chmod-le input = read_two max_filename 16 input

    choose-le : (choice input : Bytes) → left (choose env u w choice input) ≤ length input
    unfolding choose
    choose-le choice input = ground (
      arith,
      create-le input,
      read-le input,
      write-le input (str_eq choice (codes "4")),
      delete-le input,
      chmod-le input,
      encrypt-le input,
      decrypt-le input,
    )

    pub session_round-le : left (session_round env u w) ≤ length (read_line 8 w.input).1
    unfolding session_round
    session_round-le = let (choice, rest) = read_line 8 w.input in choose-le choice rest

    pub session_round-lt : w.input ≢ [] → left (session_round env u w) < length w.input
    session_round-lt h = omega (arith, session_round-le, choice-lt w.input h)

  pub login_round-lt : w.input ≢ [] → left (login_round env w) < length w.input
  login_round-lt h = omega (arith, login_round-le, choice-lt w.input h)
