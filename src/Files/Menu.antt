-- ===== src/Files/Menu.antt =====
-- task3_filesystem_security/main.c: the lines that the user types, the login screen and the session
-- menu. Standard input is the list of the bytes that are still to come; behind it is its end.
pub mod Loops
pub mod Keeps
pub mod Lines
pub mod Reads
pub mod Ends
pub mod Entered
pub mod Login
pub mod Names
pub mod Entries
pub mod Audit
pub mod Grown
pub mod Chmod
use samuel_basnet_240512_st.Prelude.{
  ℕ, zero, suc, ◌+◌, ◌-◌, Bytes, codes, Bool, true, false, ◌||◌, Option, none, some, List, [], ◌∷◌,
  ◌++◌, ◌==◌, if◌then◌else◌, str_eq, c_str,
}
unfoldable pub use samuel_basnet_240512_st.Prelude.Stdin.{fgets, strip_newline, line_of}
use samuel_basnet_240512_st.Files.Disk.{
  max_username, max_password, max_group, max_filename, User, Disk, Io,
}
use samuel_basnet_240512_st.Files.Audit.{log_action}
use samuel_basnet_240512_st.Files.Perms.{chmod_file}
use samuel_basnet_240512_st.Files.Auth.{register_user, login_user}
use samuel_basnet_240512_st.Files.Ops.{
  fs_create_file, fs_read_file, fs_write_file, fs_delete_file, fs_encrypt_file, fs_decrypt_file,
}

abbrev pub max_line : ℕ
max_line = 512

unfoldable pub read_line : ℕ → Bytes → Bytes × Bytes
read_line size input = let (line, rest) = fgets (size - 1) input in (line_of line, rest)

-- What the program prints behind a choice, but for its prompts.
pub data Printed : Type 0 where
  text : Bytes → Printed
  welcome : (username group : Bytes) → Printed
  content : Bytes → Printed

-- The state of the program between two choices: `rounds` counts the choices so far.
pub record World : Type 0 where
  pub input : Bytes
  pub disk : Disk
  pub printed : List Printed
  pub rounds : ℕ

-- What the C library decides while a choice is carried out: `rands` is what `rand` returns.
pub record Env : Type 0 where
  pub io : Io
  pub rands : List ℕ

-- What one round of a loop comes to: the next round, a `return`, or a fault of the program.
pub data Round (A : Type 0) : Type 0 where
  again : World → Round A
  return : A → World → Round A
  fault : World → Round A

abbrev pub show : World → Bytes → Disk → List Printed → World
show w input d printed = record {
  input = input;
  disk = d;
  printed = w.printed ++ printed;
  rounds = w.rounds + 1;
}

-- The two branches behind a call that returns 1 or 0.
abbrev pub reply : World → Bytes → Bytes → Bytes → Bool × Disk → Round Unit
reply w input yes_text no_text r =
    again (show w input r.1 (text (if r.0 then yes_text else no_text) ∷ []))

-- Login.
abbrev pub greet : World → Bytes → Option User × Disk → Round (Option User)
greet w input (some u, d) = return (some u) (show w input d (welcome u.username u.group ∷ []))
greet w input (none, d) =
    again (show w input d (text (codes "Login failed: invalid username or password.") ∷ []))

unfoldable pub choose_login : Env → World → Bytes → Round (Option User)
choose_login env w input =
    let (username, input1) = read_line max_username input in
    let (password, input2) = read_line max_password input1 in
    greet w input2 (login_user env.io username password w.disk)

unfoldable pub choose_register : Env → World → Bytes → Round (Option User)
choose_register env w input =
    let (username, input1) = read_line max_username input in
    let (password, input2) = read_line max_password input1 in
    let (group, input3) = read_line max_group input2 in
    let (ok, d) = register_user env.io env.rands username password group w.disk in
    again (
      show w input3 d (
        text (
          if ok
          then codes "Registration successful. You can now log in."
          else codes "Registration failed (username may already exist, or input invalid).")
        ∷ []))

-- One round of the loop of `login_screen`. `none` is the return of 0.
unfoldable pub login_round : Env → World → Round (Option User)
unfolding choose_login choose_register
login_round env w =
    let (choice, input) = read_line 8 w.input in
    if str_eq choice (codes "1")
    then choose_login env w input
    else if str_eq choice (codes "2")
    then choose_register env w input
    else if str_eq choice (codes "3")
    then return none (show w input w.disk [])
    else again (show w input w.disk (text (codes "Invalid choice.") ∷ []))

-- `(passphrase[0] != '\0') ? passphrase : NULL`
abbrev pub pass_of : Bytes → Option Bytes
pass_of [] = none
pass_of (c ∷ cs) = some (c ∷ cs)

unfoldable pub choose_create : Env → User → World → Bytes → Round Unit
choose_create env u w input =
    let (filename, input1) = read_line max_filename input in
    let (perm_str, input2) = read_line 16 input1 in
    let (typed, input3) = read_line max_line input2 in
    reply w input3 (codes "File created.")
      (codes "Failed: invalid permission string, or file already exists.")
      (fs_create_file env.io u.username u.group filename perm_str typed w.disk)

-- `printf("%s")` shows the bytes in front of the first NUL.
abbrev pub shown : Option Bytes → Printed
shown none = text (codes "Failed: file not found or permission denied.")
shown (some bytes) = content (c_str bytes)

unfoldable pub choose_read : Env → User → World → Bytes → Round Unit
choose_read env u w input =
    let (filename, input1) = read_line max_filename input in
    let (passphrase, input2) = read_line max_password input1 in
    let (bytes, d) =
      fs_read_file env.io u.username u.group filename (pass_of passphrase) 4096 w.disk in
    again (show w input2 d (shown bytes ∷ []))

unfoldable pub choose_write : Env → User → World → Bytes → Bool → Round Unit
choose_write env u w input append =
    let (filename, input1) = read_line max_filename input in
    let (passphrase, input2) = read_line max_password input1 in
    let (typed, input3) = read_line max_line input2 in
    reply w input3 (if append then codes "File appended." else codes "File written.")
      (codes "Failed: file not found or permission denied.")
      (fs_write_file env.io u.username u.group filename (pass_of passphrase) typed append w.disk)

unfoldable pub choose_delete : Env → User → World → Bytes → Round Unit
choose_delete env u w input =
    let (filename, input1) = read_line max_filename input in
    reply w input1 (codes "File deleted.") (codes "Failed: file not found or permission denied.")
      (fs_delete_file env.io u.username u.group filename w.disk)

unfoldable pub choose_chmod : Env → User → World → Bytes → Round Unit
choose_chmod env u w input =
    let (filename, input1) = read_line max_filename input in
    let (perm_str, input2) = read_line 16 input1 in
    let (ok, d) = chmod_file env.io filename perm_str w.disk in
    let result = if ok then codes "SUCCESS" else codes "FAILED" in
    reply w input2 (codes "Permissions updated.")
      (codes "Failed: file not found or invalid permission string.")
      (ok, log_action env.io u.username (codes "CHMOD") filename result d)

-- `none` is a write through a null pointer.
abbrev pub reply_or_fault : World → Bytes → Bytes → Bytes → Option (Bool × Disk) → Round Unit
reply_or_fault w input yes_text no_text none = fault (show w input w.disk [])
reply_or_fault w input yes_text no_text (some r) = reply w input yes_text no_text r

unfoldable pub choose_encrypt : Env → User → World → Bytes → Round Unit
choose_encrypt env u w input =
    let (filename, input1) = read_line max_filename input in
    let (passphrase, input2) = read_line max_password input1 in
    reply_or_fault w input2 (codes "File encrypted.")
      (codes "Failed: file not found, permission denied, or already encrypted.")
      (fs_encrypt_file env.io u.username u.group filename passphrase w.disk)

unfoldable pub choose_decrypt : Env → User → World → Bytes → Round Unit
choose_decrypt env u w input =
    let (filename, input1) = read_line max_filename input in
    let (passphrase, input2) = read_line max_password input1 in
    reply_or_fault w input2 (codes "File decrypted.")
      (codes "Failed: file not found, permission denied, or not encrypted.")
      (fs_decrypt_file env.io u.username u.group filename passphrase w.disk)

abbrev pub choose_logout : Env → User → World → Bytes → Round Unit
choose_logout env u w input = return tt (
    show w input
      (log_action env.io u.username (codes "LOGOUT") (codes "-") (codes "SUCCESS") w.disk)
      (text (codes "Logging out.") ∷ []))

abbrev pub invalid_choice : World → Bytes → Round Unit
invalid_choice w input = again (show w input w.disk (text (codes "Invalid choice.") ∷ []))

-- The branches of `session_loop` on the choice.
unfoldable pub choose : Env → User → World → Bytes → Bytes → Round Unit
choose env u w choice input =
    if str_eq choice (codes "1")
    then choose_create env u w input
    else if str_eq choice (codes "2")
    then choose_read env u w input
    else if str_eq choice (codes "3") || str_eq choice (codes "4")
    then choose_write env u w input (str_eq choice (codes "4"))
    else if str_eq choice (codes "5")
    then choose_delete env u w input
    else if str_eq choice (codes "6")
    then choose_chmod env u w input
    else if str_eq choice (codes "7")
    then choose_encrypt env u w input
    else if str_eq choice (codes "8")
    then choose_decrypt env u w input
    else if str_eq choice (codes "9")
    then choose_logout env u w input
    else invalid_choice w input

-- One round of the loop of `session_loop`.
unfoldable pub session_round : Env → User → World → Round Unit
session_round env u w = let (choice, input) = read_line 8 w.input in choose env u w choice input
