-- ===== src/Files/Menu/Login.antt =====
-- What the login screen of main.c can do to the disk, and whom it lets in.
use mathlib.Core.List.{append_assoc, append-nil}
use samuel_basnet_240512_st.Prelude.{
  ℕ, Bytes, codes, Bool, Option, none, some, List, [], ◌∷◌, ◌++◌, ◌≡◌, refl, ap, ◌∙◌, sym, subst,
  if-cases, str_eq,
}
use samuel_basnet_240512_st.Files.Disk.{max_username, max_password, max_group, User, Disk, Io}
use samuel_basnet_240512_st.Files.Audit.{log_action}
use samuel_basnet_240512_st.Files.Crypto.{hash_password, generate_salt}
use samuel_basnet_240512_st.Files.Auth.{
  find_user, invalid_input, register_new, new_user, register_user, login_found, login_user,
}
use samuel_basnet_240512_st.Files.Ops.Guard.{log-SameFiles, SameFiles, SameFiles-refl}
use samuel_basnet_240512_st.Files.Menu.{
  World, Env, Round, read_line, greet, choose_login, choose_register, login_round,
}
use samuel_basnet_240512_st.Files.Menu.Loops.{login_body, login_screen}
use samuel_basnet_240512_st.Files.Menu.Keeps.{world_of, forever-keeps}
use samuel_basnet_240512_st.Files.Menu.Entered.{Entered, forever-Entered}

-- The files and their records are the same; users may have been added behind the others.
pub record Registered (d d' : Disk) : Type 0 where
  pub metas : d'.metas ≡ d.metas
  pub storage : d'.storage ≡ d.storage
  pub added : List User
  pub users : d'.users ≡ d.users ++ added

Registered-trans : {a b c : Disk} → Registered a b → Registered b c → Registered a c
Registered-trans {a} p q = record {
  metas = q.metas ∙ p.metas;
  storage = q.storage ∙ p.storage;
  added = p.added ++ q.added;
  users = q.users ∙ ap (λ us. us ++ q.added) p.users ∙ append_assoc a.users p.added q.added;
}

SameFiles-Registered : {d d' : Disk} → SameFiles d d' → Registered d d'
SameFiles-Registered {d} s = record {
  metas = s.metas;
  storage = s.storage;
  added = [];
  users = s.users ∙ sym (append-nil d.users);
}

module _ (io : Io) (name : Bytes) (d : Disk) where
  logged : (action result : Bytes) → SameFiles d (log_action io name action name result d)
  logged action result = log-SameFiles io name action name result d

  login_found-SameFiles :
      (pass : Bytes) (o : Option User) → SameFiles d (login_found io name pass d o).1
  login_found-SameFiles pass none = logged (codes "LOGIN") (codes "FAILED_UNKNOWN_USER")
  login_found-SameFiles pass (some u) =
      if-cases (λ (r : Option User × Disk). SameFiles d r.1)
        (str_eq (hash_password pass u.salt) u.hash)
        (λ right. logged (codes "LOGIN") (codes "SUCCESS"))
        (λ wrong. logged (codes "LOGIN") (codes "FAILED_WRONG_PASSWORD"))

  pub login-SameFiles : (pass : Bytes) → SameFiles d (login_user io name pass d).1
  unfolding login_user
  login-SameFiles pass = login_found-SameFiles pass (find_user io name d)

  refused : (result : Bytes) → Registered d (log_action io name (codes "REGISTER") name result d)
  refused result = SameFiles-Registered (logged (codes "REGISTER") result)

  register_new-Registered :
      (u : User) (o : Option User) → Registered d (register_new io u name d o).1
  register_new-Registered u (some x) = refused (codes "FAILED_ALREADY_EXISTS")
  register_new-Registered u none =
      let added : Disk = record d { users = d.users ++ u ∷ [] } in
      let same = log-SameFiles io name (codes "REGISTER") name (codes "SUCCESS") added in
      if-cases (λ (r : Bool × Disk). Registered d r.1) io.users_append
        (λ opens. record {
          metas = same.metas;
          storage = same.storage;
          added = u ∷ [];
          users = same.users;
        })
        (λ shut. refused (codes "FAILED_IO_ERROR"))

  register-Registered :
      (rands : List ℕ) (pass group : Bytes)
      → Registered d (register_user io rands name pass group d).1
  unfolding register_user
  register-Registered rands pass group =
      if-cases (λ (r : Bool × Disk). Registered d r.1) (invalid_input name pass group)
        (λ bad. refused (codes "FAILED_INVALID_INPUT"))
        (λ good.
          register_new-Registered (new_user name pass group (generate_salt rands))
            (find_user io name d))

pub greet-disk :
    (w : World) (input : Bytes) (r : Option User × Disk) → (world_of (greet w input r)).disk ≡ r.1
greet-disk w input (none, d) = refl
greet-disk w input (some u, d) = refl

module _ (env : Env) (w : World) where
  login-Registered : (input : Bytes) → Registered w.disk (world_of (choose_login env w input)).disk
  unfolding choose_login
  login-Registered input =
      let (username, input1) = read_line max_username input in
      let (password, input2) = read_line max_password input1 in
      subst (λ d. Registered w.disk d)
        (sym (greet-disk w input2 (login_user env.io username password w.disk)))
        (SameFiles-Registered (login-SameFiles env.io username w.disk password))

  login_round-Registered : Registered w.disk (world_of (login_round env w)).disk
  unfolding login_round choose_register
  login_round-Registered =
      let (choice, rest) = read_line 8 w.input in
      let (username, input1) = read_line max_username rest in
      let (password, input2) = read_line max_password input1 in
      let unchanged = SameFiles-Registered (SameFiles-refl w.disk) in
      let kept : Round (Option User) → Type 0 = λ r. Registered w.disk (world_of r).disk in
      if-cases kept (str_eq choice (codes "1")) (λ one. login-Registered rest)
        (λ not_one.
          if-cases kept (str_eq choice (codes "2"))
            (λ two.
              register-Registered env.io username w.disk env.rands password
                (read_line max_group input2).0)
            (λ not_two.
              if-cases kept (str_eq choice (codes "3")) (λ three. unchanged)
                (λ not_three. unchanged)))

-- Whatever is typed at the login screen, it changes no stored file, no record of a file and no user's
-- record; it only adds users. If it lets a user in, the last three lines read of the input were the
-- choice 1, a name under which the database has that user's record, and a password whose hash with
-- the salt of the record is the hash in it. If it returns without a user, the last line read was the
-- choice 3.
pub login_screen-Registered :
    (env : ℕ → Env) (fuel : ℕ) (w : World)
    → let o = login_screen env fuel w in
      Registered w.disk o.world.disk × Entered w.input o.ending o.world
unfolding login_screen
login_screen-Registered env fuel w = (
  forever-keeps (λ v. Registered w.disk v.disk) (login_body env)
      (λ v r. Registered-trans r (login_round-Registered (env v.rounds) v)) fuel w
      (SameFiles-Registered (SameFiles-refl w.disk)),
  forever-Entered env w.input fuel w ([], refl),
)
