-- ===== src/Files/Menu/Loops.antt =====
-- The loops of task3_filesystem_security/main.c: `login_screen`, `session_loop` and `main`.
use samuel_basnet_240512_st.Prelude.{ℕ, zero, suc, Option, none, some}
use samuel_basnet_240512_st.Files.Disk.{User}
use samuel_basnet_240512_st.Files.Menu.{
  World, Env, Round, again, return, fault, login_round, session_round,
}

-- How far a loop has come: it has returned, the program has crashed, or the fuel was used up.
pub data Ending (A : Type 0) : Type 0 where
  returned : A → Ending A
  crashed unfinished : Ending A

pub record Outcome (A : Type 0) : Type 0 where
  pub ending : Ending A
  pub world : World

-- What a round comes to, with what the rounds behind it come to.
abbrev pub continue : {A : Type 0} → (World → Outcome A) → Round A → Outcome A
continue later (again w) = later w
continue later (return a w) = record { ending = returned a; world = w }
continue later (fault w) = record { ending = crashed; world = w }

-- `while (1)` around the body, for at most `fuel` rounds.
unfoldable pub forever : {A : Type 0} → (World → Round A) → ℕ → World → Outcome A
forever body zero w = record { ending = unfinished; world = w }
forever body (suc fuel) w = continue (forever body fuel) (body w)

-- The round that is the `n`-th of the program has the `n`-th environment.
abbrev pub login_body : (ℕ → Env) → World → Round (Option User)
login_body env w = login_round (env w.rounds) w

abbrev pub session_body : (ℕ → Env) → User → World → Round Unit
session_body env u w = session_round (env w.rounds) u w

unfoldable pub login_screen : (ℕ → Env) → ℕ → World → Outcome (Option User)
unfolding forever
login_screen env fuel w = forever (login_body env) fuel w

unfoldable pub session_loop : (ℕ → Env) → User → ℕ → World → Outcome Unit
unfolding forever
session_loop env u fuel w = forever (session_body env u) fuel w

-- Behind a session the screen is shown again.
abbrev pub after_session : (World → Outcome Unit) → Ending Unit → World → Outcome Unit
after_session later (returned tt) w = later w
after_session later crashed w = record { ending = crashed; world = w }
after_session later unfinished w = record { ending = unfinished; world = w }

abbrev pub after_login :
    (ℕ → Env) → ℕ → (World → Outcome Unit) → Ending (Option User) → World → Outcome Unit
after_login env fuel later (returned none) w = record { ending = returned tt; world = w }
after_login env fuel later (returned (some u)) w =
    let session = session_loop env u fuel w in after_session later session.ending session.world
after_login env fuel later crashed w = record { ending = crashed; world = w }
after_login env fuel later unfinished w = record { ending = unfinished; world = w }

-- `while (login_screen(&current_user)) session_loop(&current_user);`, for at most `n` users, with
-- `fuel` rounds for each loop inside.
unfoldable pub main : (ℕ → Env) → ℕ → ℕ → World → Outcome Unit
unfolding login_screen session_loop
main env fuel zero w = record { ending = unfinished; world = w }
main env fuel (suc n) w =
    let login = login_screen env fuel w in
    after_login env fuel (main env fuel n) login.ending login.world
