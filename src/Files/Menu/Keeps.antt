-- ===== src/Files/Menu/Keeps.antt =====
-- What each round of the loops of main.c keeps, the program keeps.
use samuel_basnet_240512_st.Prelude.{ℕ, zero, suc, Option, none, some}
use samuel_basnet_240512_st.Files.Disk.{User}
use samuel_basnet_240512_st.Files.Menu.{World, Env, Round, again, return, fault}
use samuel_basnet_240512_st.Files.Menu.Loops.{
  Ending, returned, crashed, unfinished, Outcome, continue, after_session, after_login, forever,
  login_body, session_body, login_screen, session_loop, main,
}

abbrev pub world_of : {A : Type 0} → Round A → World
world_of (again w) = w
world_of (return a w) = w
world_of (fault w) = w

module _ {ℓ} (P : World → Type ℓ) where
  continue-keeps :
      {A : Type 0} (later : World → Outcome A)
      → ((w : World) → P w → P (later w).world)
      → (r : Round A) → P (world_of r)
      → P (continue later r).world
  continue-keeps later keep (again w) h = keep w h
  continue-keeps later keep (return a w) h = h
  continue-keeps later keep (fault w) h = h

  pub forever-keeps :
      {A : Type 0} (body : World → Round A)
      → ((w : World) → P w → P (world_of (body w)))
      → (fuel : ℕ) (w : World) → P w
      → P (forever body fuel w).world
  unfolding forever
  forever-keeps body keep zero w h = h
  forever-keeps body keep (suc fuel) w h =
      continue-keeps (forever body fuel) (forever-keeps body keep fuel) (body w) (keep w h)

  after_session-keeps :
      (later : World → Outcome Unit)
      → ((w : World) → P w → P (later w).world)
      → (e : Ending Unit) (w : World) → P w
      → P (after_session later e w).world
  after_session-keeps later keep (returned tt) w h = keep w h
  after_session-keeps later keep crashed w h = h
  after_session-keeps later keep unfinished w h = h

  module _ (env : ℕ → Env)
      (in_session : (u : User) (w : World) → P w → P (world_of (session_body env u w))) where
    after_login-keeps :
        (fuel : ℕ) (later : World → Outcome Unit)
        → ((w : World) → P w → P (later w).world)
        → (e : Ending (Option User)) (w : World) → P w
        → P (after_login env fuel later e w).world
    unfolding session_loop
    after_login-keeps fuel later keep (returned none) w h = h
    after_login-keeps fuel later keep (returned (some u)) w h =
        let session = session_loop env u fuel w in
        after_session-keeps later keep session.ending session.world
          (forever-keeps (session_body env u) (in_session u) fuel w h)
    after_login-keeps fuel later keep crashed w h = h
    after_login-keeps fuel later keep unfinished w h = h

    pub main-keeps :
        ((w : World) → P w → P (world_of (login_body env w)))
        → (fuel n : ℕ) (w : World) → P w
        → P (main env fuel n w).world
    unfolding main login_screen
    main-keeps at_login fuel zero w h = h
    main-keeps at_login fuel (suc n) w h =
        let login = login_screen env fuel w in
        after_login-keeps fuel (main env fuel n) (main-keeps at_login fuel n) login.ending
          login.world (forever-keeps (login_body env) at_login fuel w h)
