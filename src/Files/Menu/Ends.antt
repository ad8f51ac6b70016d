-- ===== src/Files/Menu/Ends.antt =====
-- Where the loops of main.c end: by a `return`, or at the end of the input, where they never do.
use samuel_basnet_240512_st.Prelude.{
  ℕ, zero, suc, ◌≤◌, ◌<◌, Bytes, codes, Option, none, some, [], ◌∷◌, ◌≡◌, ◌≢◌, refl, ap, ◌∙◌, arith,
  length, str_eq, inl, inr, List-cases,
}
use samuel_basnet_240512_st.Files.Disk.{User, Disk}
use samuel_basnet_240512_st.Files.Menu.{
  World, Env, text, Round, again, return, fault, login_round, choose, session_round, show,
}
use samuel_basnet_240512_st.Files.Menu.Loops.{
  Ending, returned, crashed, unfinished, Outcome, continue, after_session, after_login, forever,
  login_body, session_body, login_screen, session_loop, main,
}
use samuel_basnet_240512_st.Files.Menu.Keeps.{world_of, forever-keeps}
use samuel_basnet_240512_st.Files.Menu.Lines.{read_line-end}
use samuel_basnet_240512_st.Files.Menu.Reads.{login_round-lt, session_round-lt}

-- The input is over, and the disk is this one.
abbrev pub Over : Disk → World → Type 0
Over d w = (w.input ≡ []) × (w.disk ≡ d)

-- A round at the end of the input changes nothing and is followed by another one.
abbrev Spins : {A : Type 0} → (World → Round A) → Type 0
Spins body = (w : World) → w.input ≡ [] → (w' : World) × (body w ≡ again w') × Over w.disk w'

forever-Spins :
    {A : Type 0} (body : World → Round A)
    → Spins body
    → (fuel : ℕ) (w : World) → w.input ≡ []
    → ((forever body fuel w).ending ≡ unfinished) × Over w.disk (forever body fuel w).world
unfolding forever
forever-Spins body spins zero w h = (refl, (h, refl))
forever-Spins body spins (suc fuel) w h =
    let (w', e, over) = spins w h in
    let (ending, (input, disk)) = forever-Spins body spins fuel w' over.0 in
    let here : continue (forever body fuel) (body w) ≡ forever body fuel w' =
      ap (continue (forever body fuel)) e in
    rw here (ending, (input, disk ∙ over.1))

login-Spins : (env : ℕ → Env) → Spins (login_body env)
unfolding login_round str_eq
login-Spins env w h = (
  show w [] w.disk (text (codes "Invalid choice.") ∷ []),
  rw (h, read_line-end 8) refl,
  (refl, refl),
)

session-Spins : (env : ℕ → Env) (u : User) → Spins (session_body env u)
unfolding session_round choose str_eq
session-Spins env u w h = (
  show w [] w.disk (text (codes "Invalid choice.") ∷ []),
  rw (h, read_line-end 8) refl,
  (refl, refl),
)

-- When the input is over, neither the login screen nor a session ever returns: after any number of
-- rounds the loop still runs, and nothing on the disk has changed.
pub loops-end :
    (env : ℕ → Env) (u : User) (fuel : ℕ) (w : World)
    → w.input ≡ []
    → ((login_screen env fuel w).ending ≡ unfinished)
      × Over w.disk (login_screen env fuel w).world
      × ((session_loop env u fuel w).ending ≡ unfinished)
      × Over w.disk (session_loop env u fuel w).world
unfolding login_screen session_loop
loops-end env u fuel w h =
    let (login, login_over) = forever-Spins (login_body env) (login-Spins env) fuel w h in
    let (session, over) = forever-Spins (session_body env u) (session-Spins env u) fuel w h in
    (login, login_over, session, over)

-- A round takes something off an input that is not over.
abbrev Reads : {A : Type 0} → (World → Round A) → Type 0
Reads body = (w : World) → w.input ≢ [] → length (world_of (body w)).input < length w.input

-- With as many rounds as there are bytes, the loop ends or the input does.
abbrev Exhausted : {A : Type 0} → Outcome A → Type 0
Exhausted o = o.ending ≡ unfinished → o.world.input ≡ []

no-bytes : (b : Bytes) → length b ≤ 0 → b ≡ []
no-bytes [] h = refl
no-bytes (c ∷ b) h = absurd (omega arith)

continue-exhausts :
    {A : Type 0} (later : World → Outcome A) (n : ℕ)
    → ((w : World) → length w.input ≤ n → Exhausted (later w))
    → (r : Round A) → length (world_of r).input ≤ n
    → Exhausted (continue later r)
continue-exhausts later n h (again w) le = h w le
continue-exhausts later n h (return a w) le = λ e. absurd (ground arith)
continue-exhausts later n h (fault w) le = λ e. absurd (ground arith)

forever-exhausts :
    {A : Type 0} (body : World → Round A)
    → Spins body
    → Reads body
    → (fuel : ℕ) (w : World) → length w.input ≤ fuel
    → Exhausted (forever body fuel w)
unfolding forever
forever-exhausts body spins reads zero w le = λ e. no-bytes w.input le
forever-exhausts body spins reads (suc fuel) w le = elim (List-cases w.input) [
  | inl over ↦ λ e. (forever-Spins body spins (suc fuel) w over).1.0
  | inr (c, cs, more) ↦
      continue-exhausts (forever body fuel) fuel (forever-exhausts body spins reads fuel) (body w)
        (omega (arith, reads w (λ over. absurd (ground arith))))
]

body-le :
    {A : Type 0} (body : World → Round A)
    → Spins body
    → Reads body
    → (w : World) → length (world_of (body w)).input ≤ length w.input
body-le body spins reads w = elim (List-cases w.input) [
  | inl over ↦
      let (w', e, (input, disk)) = spins w over in
      omega (arith, ap (λ r. length (world_of r).input) e, ap length input)
  | inr (c, cs, more) ↦ omega (arith, reads w (λ over. absurd (ground arith)))
]

forever-le :
    {A : Type 0} (body : World → Round A)
    → Spins body
    → Reads body
    → (fuel : ℕ) (w : World) → length (forever body fuel w).world.input ≤ length w.input
forever-le body spins reads fuel w =
    forever-keeps (λ v. length v.input ≤ length w.input) body
      (λ v le. omega (arith, body-le body spins reads v, le)) fuel w (omega arith)

continue-le :
    {A : Type 0} (later : World → Outcome A)
    → ((w : World) → length (later w).world.input ≤ length w.input)
    → (r : Round A) → length (continue later r).world.input ≤ length (world_of r).input
continue-le later h (again w) = h w
continue-le later h (return a w) = omega arith
continue-le later h (fault w) = omega arith

-- A loop that returns has read something.
forever-lt :
    {A : Type 0} (body : World → Round A)
    → Spins body
    → Reads body
    → (fuel : ℕ) (w : World) (a : A) → (forever body fuel w).ending ≡ returned a
    → length (forever body fuel w).world.input < length w.input
unfolding forever
forever-lt body spins reads zero w a e = absurd (ground arith)
forever-lt body spins reads (suc fuel) w a e = elim (List-cases w.input) [
  | inl over ↦ absurd (ground (arith, forever-Spins body spins (suc fuel) w over))
  | inr (c, cs, more) ↦ omega (
    arith,
    continue-le (forever body fuel) (forever-le body spins reads fuel) (body w),
    reads w (λ over. absurd (ground arith)),
  )
]

after_session-exhausts :
    (later : World → Outcome Unit) (n : ℕ)
    → ((w : World) → length w.input < n → Exhausted (later w))
    → (e : Ending Unit) (w : World) → length w.input < n
    → (e ≡ unfinished → w.input ≡ [])
    → Exhausted (after_session later e w)
after_session-exhausts later n h (returned tt) w lt out = h w lt
after_session-exhausts later n h crashed w lt out = λ e. absurd (ground arith)
after_session-exhausts later n h unfinished w lt out = λ e. out refl

module _ (env : ℕ → Env) where
  session-exhausts :
      (u : User) (fuel : ℕ) (w : World)
      → length w.input ≤ fuel
      → Exhausted (session_loop env u fuel w)
  unfolding session_loop
  session-exhausts u fuel w le =
      forever-exhausts (session_body env u) (session-Spins env u)
        (λ v h. session_round-lt (env v.rounds) v u h) fuel w le

  after_login-exhausts :
      (fuel n : ℕ) (later : World → Outcome Unit)
      → ((w : World) → length w.input < n → Exhausted (later w))
      → (e : Ending (Option User)) (w : World) → length w.input ≤ fuel
      → (e ≡ unfinished → w.input ≡ [])
      → ((o : Option User) → e ≡ returned o → length w.input < n)
      → Exhausted (after_login env fuel later e w)
  unfolding session_loop
  after_login-exhausts fuel n later h (returned none) w le out lt = λ e. absurd (ground arith)
  after_login-exhausts fuel n later h (returned (some u)) w le out lt =
      let session = session_loop env u fuel w in
      let shorter : length session.world.input ≤ length w.input =
        forever-le (session_body env u) (session-Spins env u)
          (λ v. session_round-lt (env v.rounds) v u) fuel w in
      after_session-exhausts later n h session.ending session.world
        (omega (arith, lt (some u) refl, shorter)) (session-exhausts u fuel w le)
  after_login-exhausts fuel n later h crashed w le out lt = λ e. absurd (ground arith)
  after_login-exhausts fuel n later h unfinished w le out lt = λ e. out refl

  main-Exhausted :
      (fuel n : ℕ) (w : World) → length w.input < n → n ≤ fuel → Exhausted (main env fuel n w)
  unfolding main login_screen
  main-Exhausted fuel zero w lt le = absurd (omega arith)
  main-Exhausted fuel (suc n) w lt le =
      let login = login_screen env fuel w in
      let body : World → Round (Option User) = login_body env in
      let reads = λ (v : World). login_round-lt (env v.rounds) v in
      let shorter : length login.world.input ≤ length w.input =
        forever-le body (login-Spins env) reads fuel w in
      after_login-exhausts fuel n (main env fuel n) (λ v l. main-Exhausted fuel n v l (omega arith))
        login.ending login.world (omega arith)
        (forever-exhausts body (login-Spins env) reads fuel w (omega arith))
        (λ o e. omega (arith, forever-lt body (login-Spins env) reads fuel w o e))

  -- With more users than there are bytes of input, and as many rounds for each loop, a program that
  -- has not ended has read all its input: else it ends, by the choice to exit or a fault.
  pub main-exhausts :
      (fuel n : ℕ) (w : World)
      → length w.input < n
      → n ≤ fuel
      → (main env fuel n w).ending ≡ unfinished
      → (main env fuel n w).world.input ≡ []
  main-exhausts = main-Exhausted
