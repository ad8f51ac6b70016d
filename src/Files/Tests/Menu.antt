-- ===== src/Files/Tests/Menu.antt =====
-- The theorems on main.c of task3_filesystem_security at concrete inputs.
use samuel_basnet_240512_st.Prelude.{
  Bytes, codes, false, [], ◌∷◌, ◌++◌, ◌≡◌, refl, arith, c_str, str_eq, strn_eq, replicate,
}
use samuel_basnet_240512_st.Prelude.Stdin.{fgets, strip_newline}
use samuel_basnet_240512_st.Files.Disk.{User}
use samuel_basnet_240512_st.Files.Perms.{find_file_meta, find_meta}
use samuel_basnet_240512_st.Files.Auth.{new_user, invalid_input}
use samuel_basnet_240512_st.Files.Ops.{storage_path}
use samuel_basnet_240512_st.Files.Audit.{log_action}
use samuel_basnet_240512_st.Files.Menu.{
  read_line, text, content, World, Env, again, show, login_round, choose_register,
}
use samuel_basnet_240512_st.Files.Menu.Loops.{unfinished, login_screen, session_loop, main, forever}
use samuel_basnet_240512_st.Files.Menu.Ends.{Over, loops-end, main-exhausts}
use samuel_basnet_240512_st.Files.Menu.Entered.{Entered}
use samuel_basnet_240512_st.Files.Menu.Login.{Registered, login_screen-Registered}
use samuel_basnet_240512_st.Files.Menu.Names.{long_name}
use samuel_basnet_240512_st.Files.Menu.Chmod.{Stored, typed, chmod-discloses}
use samuel_basnet_240512_st.Files.Tests.{all_open, notes, one_file}

abbrev env : Env
env = record { io = all_open; rands = replicate 16 300 }

abbrev world : Bytes → World
world input = record {
  input = input;
  disk = one_file false (codes "hello");
  printed = [];
  rounds = 0;
}

abbrev eve : User
eve = new_user (codes "eve") (codes "pw") (codes "guests") []

loops-end_example :
    ((login_screen (λ i. env) 3 (world [])).ending ≡ unfinished)
    × Over (world []).disk (login_screen (λ i. env) 3 (world [])).world
    × ((session_loop (λ i. env) eve 3 (world [])).ending ≡ unfinished)
    × Over (world []).disk (session_loop (λ i. env) eve 3 (world [])).world
loops-end_example = loops-end (λ i. env) eve 3 (world []) refl

invalid_choice : (main (λ i. env) 3 3 (world (codes "x\n"))).ending ≡ unfinished
unfolding main login_screen forever login_round read_line fgets strip_newline c_str str_eq
invalid_choice = refl

main-exhausts_example : (main (λ i. env) 3 3 (world (codes "x\n"))).world.input ≡ []
main-exhausts_example =
    main-exhausts (λ i. env) 3 3 (world (codes "x\n")) (omega arith) (omega arith) invalid_choice

abbrev signs_up : Bytes
signs_up = codes "2\nbob\npw\nstaff\n1\nbob\npw\n"

login_screen-Registered_example :
    let o = login_screen (λ i. env) 3 (world signs_up) in
    Registered (world signs_up).disk o.world.disk × Entered signs_up o.ending o.world
login_screen-Registered_example = login_screen-Registered (λ i. env) 3 (world signs_up)

abbrev name_of_31 : Bytes
name_of_31 = replicate 31 97

long_name_example :
    (invalid_input name_of_31 (codes "pw") (codes "staff") ≡ false)
    × (choose_register env (world []) (name_of_31 ++ 10 ∷ codes "pw\nstaff\n3\n")
        ≡ again (
            show
              (world [])
              (codes "staff\n3\n")
              (log_action all_open name_of_31
                (codes "REGISTER")
                name_of_31
                (codes "FAILED_INVALID_INPUT")
                (world []).disk)
              (text (codes "Registration failed (username may already exist, or input invalid).")
                ∷ [])))
long_name_example =
    long_name env (world []) name_of_31 (codes "pw") (codes "staff") (codes "3\n") (grind arith)
      refl (grind arith) (omega arith) (omega arith) (omega arith)

abbrev opens_up : Bytes
opens_up =
    typed (codes "6" ∷ codes "notes" ∷ codes "rwxrwxrwx" ∷ codes "2" ∷ codes "notes" ∷ [] ∷ []) []

notes-Stored :
    Stored all_open (codes "notes") (one_file false (codes "hello")) (notes false) (codes "hello")
unfolding find_file_meta find_meta storage_path str_eq strn_eq
notes-Stored = record {
  recorded = refl;
  reads = refl;
  writes = refl;
  records = omega arith;
  stored = refl;
}

chmod-discloses_example :
    (session_loop (λ i. env) eve 2 (world opens_up)).world.printed
    ≡ text (codes "Permissions updated.") ∷ content (codes "hello") ∷ []
unfolding c_str
chmod-discloses_example =
    chmod-discloses (λ i. env) eve (world opens_up) (codes "notes") [] (codes "hello") (notes false)
      (grind arith) (omega arith) notes-Stored refl refl refl
