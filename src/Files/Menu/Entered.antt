-- ===== src/Files/Menu/Entered.antt =====
-- Whom the login screen of main.c lets in, by the lines that were typed.
use mathlib.Core.List.{append_assoc, Memᴰ}
use samuel_basnet_240512_st.Prelude.{
  ℕ, zero, suc, ◌-◌, Bytes, codes, Option, none, some, List, [], ◌∷◌, ◌++◌, ◌≡◌, refl, ap, ◌∙◌, sym,
  arith, if-cases, str_eq, str_eq_iff, strn_eq, inl, inr, Bool-cases,
}
use samuel_basnet_240512_st.Files.Disk.{max_username, max_password, max_group, User, Disk, Io}
use samuel_basnet_240512_st.Files.Crypto.{hash_password}
use samuel_basnet_240512_st.Files.Auth.{find_in, find_user, login_found, login_user}
use samuel_basnet_240512_st.Files.Ops.Guard.{log-SameFiles}
use samuel_basnet_240512_st.Files.Menu.{
  World, Env, Round, again, return, fault, read_line, fgets, greet, choose_login, choose_register,
  login_round,
}
use samuel_basnet_240512_st.Files.Menu.Loops.{
  Ending, returned, crashed, unfinished, Outcome, continue, forever, login_body,
}

-- What is left of an input.
abbrev pub Suffix : Bytes → Bytes → Type 0
Suffix rest input = (front : Bytes) × (input ≡ front ++ rest)

Suffix-trans : {a b c : Bytes} → Suffix a b → Suffix b c → Suffix a c
Suffix-trans {a} (x, p) (y, q) = (y ++ x, q ∙ ap (λ l. y ++ l) p ∙ sym (append_assoc y x a))

fgets-append : (n : ℕ) (input : Bytes) → input ≡ (fgets n input).0 ++ (fgets n input).1
unfolding fgets
fgets-append zero input = refl
fgets-append (suc n) [] = refl
fgets-append (suc n) (c ∷ cs) = ground (arith, fgets-append n cs)

read_line-Suffix : (size : ℕ) (input : Bytes) → Suffix (read_line size input).1 input
unfolding read_line
read_line-Suffix size input = ((fgets (size - 1) input).0, fgets-append (size - 1) input)

-- The three lines of a login that lets `u` in: the choice, the name under which the record `u` is
-- found in the database, and the password that has, with the salt of the record, the hash in it.
pub record LoginTyped (users : List User) (u : User) (input rest : Bytes) : Type 0 where
  pub after_choice : Bytes
  pub after_name : Bytes
  pub name : Bytes
  pub password : Bytes
  pub chosen : read_line 8 input ≡ (codes "1", after_choice)
  pub named : read_line max_username after_choice ≡ (name, after_name)
  pub typed : read_line max_password after_name ≡ (password, rest)
  pub found : find_in name users ≡ some u
  pub stored : Memᴰ u users
  pub hashed : hash_password password u.salt ≡ u.hash

-- The lines typed last, in front of what is still to be read: a login that lets the user in, or the
-- choice to leave.
abbrev pub LetIn : Bytes → Option User → World → Type 0
LetIn input none w = (last : Bytes) × Suffix last input × (read_line 8 last ≡ (codes "3", w.input))
LetIn input (some u) w = (last : Bytes) × Suffix last input × LoginTyped w.disk.users u last w.input

abbrev Lets : Bytes → Round (Option User) → Type 0
Lets input (again w) = Suffix w.input input
Lets input (return o w) = LetIn input o w
Lets input (fault w) = Unit

find-Memᴰ : (name : Bytes) (us : List User) (u : User) → find_in name us ≡ some u → Memᴰ u us
unfolding find_in
find-Memᴰ name [] u e = absurd (ground arith)
find-Memᴰ name (x ∷ us) u e = elim (Bool-cases (strn_eq max_username x.username name)) [
  | inl named ↦ Memᴰ.head (ground arith)
  | inr other ↦ Memᴰ.tail (find-Memᴰ name us u (ground arith))
]

Suffix-two : (n m : ℕ) (input : Bytes) → Suffix (read_line m (read_line n input).1).1 input
Suffix-two n m input =
    Suffix-trans (read_line-Suffix m (read_line n input).1) (read_line-Suffix n input)

module _ (io : Io) (d : Disk) (w : World) (input : Bytes)
    (one : (read_line 8 input).0 ≡ codes "1") where
  abbrev behind : Bytes
  behind = (read_line 8 input).1

  abbrev given_name : Bytes
  given_name = (read_line max_username behind).0

  abbrev given_password : Bytes
  given_password = (read_line max_password (read_line max_username behind).1).0

  abbrev left_over : Bytes
  left_over = (read_line max_password (read_line max_username behind).1).1

  greet-Lets :
      (o : Option User)
      → ((u : User) → o ≡ some u → find_in given_name d.users ≡ some u)
      → Lets input (greet w left_over (login_found io given_name given_password d o))
  greet-Lets none h =
      Suffix-trans (Suffix-two max_username max_password behind) (read_line-Suffix 8 input)
  greet-Lets (some u) h =
      let same = log-SameFiles io given_name (codes "LOGIN") given_name (codes "SUCCESS") d in
      let found = ap (find_in given_name) same.users ∙ h u refl in
      if-cases (λ r. Lets input (greet w left_over r))
        (str_eq (hash_password given_password u.salt) u.hash)
        (λ right. (
          input,
          ([], refl),
          record {
            after_choice = behind;
            after_name = (read_line max_username behind).1;
            name = given_name;
            password = given_password;
            chosen = ap (λ c. (c, behind)) one;
            named = refl;
            typed = refl;
            found = found;
            stored = find-Memᴰ given_name _ u found;
            hashed = (str_eq_iff (hash_password given_password u.salt) u.hash).0 right;
          },
        ))
        (λ wrong.
          Suffix-trans (Suffix-two max_username max_password behind) (read_line-Suffix 8 input))

module _ (env : Env) (w : World) where
  user-find_in :
      (name : Bytes) (u : User)
      → find_user env.io name w.disk ≡ some u
      → find_in name w.disk.users ≡ some u
  unfolding find_user
  user-find_in name u e = ground arith

  login_round-Lets : Lets w.input (login_round env w)
  unfolding login_round choose_login choose_register login_user
  login_round-Lets =
      let (choice, rest) = read_line 8 w.input in
      let (username, input1) = read_line max_username rest in
      if-cases (Lets w.input) (str_eq choice (codes "1"))
        (λ one.
          greet-Lets env.io w.disk w w.input ((str_eq_iff choice (codes "1")).0 one)
            (find_user env.io username w.disk) (user-find_in username))
        (λ not_one.
          if-cases (Lets w.input) (str_eq choice (codes "2"))
            (λ two. Suffix-trans (read_line-Suffix max_group (read_line max_password input1).1) (
              Suffix-trans (Suffix-two max_username max_password rest)
                (read_line-Suffix 8 w.input)))
            (λ not_two.
              if-cases (Lets w.input) (str_eq choice (codes "3"))
                (λ three. (
                  w.input,
                  ([], refl),
                  ap (λ c. (c, rest)) ((str_eq_iff choice (codes "3")).0 three),
                ))
                (λ not_three. read_line-Suffix 8 w.input)))

-- How the screen is left, whose input was `input` at the start.
abbrev pub Entered : Bytes → Ending (Option User) → World → Type 0
Entered input (returned o) w = LetIn input o w
Entered input crashed w = Unit
Entered input unfinished w = Unit

LetIn-Suffix :
    {rest input : Bytes} (o : Option User) (w : World)
    → Suffix rest input
    → LetIn rest o w
    → LetIn input o w
LetIn-Suffix none w s (last, t, l) = (last, Suffix-trans t s, l)
LetIn-Suffix (some u) w s (last, t, l) = (last, Suffix-trans t s, l)

continue-Entered :
    (input left : Bytes) (later : World → Outcome (Option User))
    → Suffix left input
    → ((w : World) → Suffix w.input input → Entered input (later w).ending (later w).world)
    → (r : Round (Option User)) → Lets left r
    → Entered input (continue later r).ending (continue later r).world
continue-Entered input left later s h (again w) l = h w (Suffix-trans l s)
continue-Entered input left later s h (return o w) l = LetIn-Suffix o w s l
continue-Entered input left later s h (fault w) l = tt

pub forever-Entered :
    (env : ℕ → Env) (input : Bytes) (fuel : ℕ) (w : World)
    → Suffix w.input input
    → let o = forever (login_body env) fuel w in Entered input o.ending o.world
unfolding forever
forever-Entered env input zero w s = tt
forever-Entered env input (suc fuel) w s =
    continue-Entered input w.input (forever (login_body env) fuel) s
      (forever-Entered env input fuel) (login_body env w) (login_round-Lets (env w.rounds) w)
