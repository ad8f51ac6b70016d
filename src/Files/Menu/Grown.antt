-- ===== src/Files/Menu/Grown.antt =====
-- The audit log of a whole run of main.c.
use mathlib.Core.List.{append_assoc, append-nil}
use samuel_basnet_240512_st.Prelude.{
  ℕ, Bytes, codes, Bool, Option, none, some, List, [], ◌++◌, ◌≡◌, refl, ap, ◌∙◌, sym, subst,
  if◌then◌else◌, if-cases, str_eq,
}
use samuel_basnet_240512_st.Files.Disk.{max_username, max_password, max_group, User, Disk, Io}
use samuel_basnet_240512_st.Files.Audit.{log_line, log_action}
use samuel_basnet_240512_st.Files.Crypto.{hash_password, generate_salt}
use samuel_basnet_240512_st.Files.Auth.{
  invalid_input, new_user, register_new, register_user, login_found, login_user, find_user,
}
use samuel_basnet_240512_st.Files.Ops.Logged.{
  Logged, succeeds, fails, failure_text, with_entry, log-audit,
}
use samuel_basnet_240512_st.Files.Menu.{
  World, Env, Round, again, return, fault, read_line, choose_login, choose_register, login_round,
  session_round,
}
use samuel_basnet_240512_st.Files.Menu.Loops.{main}
use samuel_basnet_240512_st.Files.Menu.Login.{greet-disk}
use samuel_basnet_240512_st.Files.Menu.Keeps.{world_of, main-keeps}
use samuel_basnet_240512_st.Files.Menu.Entries.{Entry, EntryMade, Audited}
use samuel_basnet_240512_st.Files.Menu.Audit.{round-Audited}

-- The log has only grown.
abbrev pub Grown : Disk → Disk → Type 0
Grown d d' = (more : Bytes) × (d'.audit ≡ d.audit ++ more)

Grown-same : (d d' : Disk) → d'.audit ≡ d.audit → Grown d d'
Grown-same d d' e = ([], e ∙ sym (append-nil d.audit))

Grown-trans : (a b c : Disk) → Grown a b → Grown b c → Grown a c
Grown-trans a b c (more, e) (more', e') =
    (more ++ more', e' ∙ ap (λ l. l ++ more') e ∙ append_assoc a.audit more more')

entry-Grown :
    (io : Io) (u action f result : Bytes) (d d' : Disk)
    → d'.audit ≡ with_entry io u action f result d
    → Grown d d'
entry-Grown io u action f result d d' e =
    if-cases (λ b. b ≡ d'.audit → Grown d d') io.audit_append
      (λ opens h. (log_line io.now u action f result, sym h)) (λ shut h. Grown-same d d' (sym h))
      (sym e)

Logged-Grown :
    (io : Io) (u f s t : Bytes) (ok : Bool) (d d' : Disk) → Logged io u f s t ok d d' → Grown d d'
Logged-Grown io u f s t ok d d' (succeeds q e) = entry-Grown io u s f (codes "SUCCESS") d d' e
Logged-Grown io u f s t ok d d' (fails q r e) = entry-Grown io u t f (failure_text r) d d' e

EntryMade-Grown :
    (io : Io) (u : Bytes) (e : Option Entry) (w w' : World)
    → EntryMade io u e w w'
    → Grown w.disk w'.disk
EntryMade-Grown io u none w w' same = Grown-same w.disk w'.disk (ap (λ (x : Disk). x.audit) same)
EntryMade-Grown io u (some e) w w' (ok, l, told) =
    Logged-Grown io u e.target e.action e.failing ok w.disk w'.disk l

Audited-Grown :
    (io : Io) (u : Bytes) (e : Option Entry) (w : World) (r : Round Unit)
    → Audited io u e w r
    → Grown w.disk (world_of r).disk
Audited-Grown io u e w (again w') l = EntryMade-Grown io u e w w' l
Audited-Grown io u e w (return a w') l = EntryMade-Grown io u e w w' l
Audited-Grown io u e w (fault w') same = Grown-same w.disk w'.disk (ap (λ (x : Disk). x.audit) same)

module _ (io : Io) (name : Bytes) (d : Disk) where
  logs :
      (action result : Bytes) (d1 : Disk)
      → d1.audit ≡ d.audit
      → Grown d (log_action io name action name result d1)
  logs action result d1 same =
      entry-Grown io name action name result d (log_action io name action name result d1) (
        log-audit io name action name result d1
        ∙ ap (λ b. if io.audit_append then b ++ log_line io.now name action name result else b)
            same)

  login-Grown : (pass : Bytes) → Grown d (login_user io name pass d).1
  unfolding login_user
  login-Grown pass = found (find_user io name d)
    where
      found : (o : Option User) → Grown d (login_found io name pass d o).1
      found none = logs (codes "LOGIN") (codes "FAILED_UNKNOWN_USER") d refl
      found (some u) =
          if-cases (λ (r : Option User × Disk). Grown d r.1)
            (str_eq (hash_password pass u.salt) u.hash)
            (λ right. logs (codes "LOGIN") (codes "SUCCESS") d refl)
            (λ wrong. logs (codes "LOGIN") (codes "FAILED_WRONG_PASSWORD") d refl)

  register-Grown :
      (rands : List ℕ) (pass group : Bytes) → Grown d (register_user io rands name pass group d).1
  unfolding register_user
  register-Grown rands pass group =
      if-cases (λ (r : Bool × Disk). Grown d r.1) (invalid_input name pass group)
        (λ bad. logs (codes "REGISTER") (codes "FAILED_INVALID_INPUT") d refl)
        (λ good. fresh (find_user io name d))
    where
      fresh :
          (o : Option User)
          → Grown d (register_new io (new_user name pass group (generate_salt rands)) name d o).1
      fresh (some x) = logs (codes "REGISTER") (codes "FAILED_ALREADY_EXISTS") d refl
      fresh none =
          if-cases (λ (r : Bool × Disk). Grown d r.1) io.users_append
            (λ opens. logs (codes "REGISTER") (codes "SUCCESS") _ refl)
            (λ shut. logs (codes "REGISTER") (codes "FAILED_IO_ERROR") d refl)

login_round-Grown : (env : Env) (w : World) → Grown w.disk (world_of (login_round env w)).disk
unfolding login_round choose_login choose_register
login_round-Grown env w =
    let (choice, rest) = read_line 8 w.input in
    let (username, input1) = read_line max_username rest in
    let (password, input2) = read_line max_password input1 in
    let kept : Round (Option User) → Type 0 = λ r. Grown w.disk (world_of r).disk in
    if-cases kept (str_eq choice (codes "1"))
      (λ one.
        subst (λ e. Grown w.disk e)
          (sym (greet-disk w input2 (login_user env.io username password w.disk)))
          (login-Grown env.io username w.disk password))
      (λ not_one.
        if-cases kept (str_eq choice (codes "2"))
          (λ two.
            register-Grown env.io username w.disk env.rands password (read_line max_group input2).0)
          (λ not_two.
            if-cases kept (str_eq choice (codes "3")) (λ three. Grown-same w.disk w.disk refl)
              (λ not_three. Grown-same w.disk w.disk refl)))

-- As far as no file name leads out of storage/, which the model takes for granted: however the program
-- is used, and wherever it stands, its audit log begins with all that was in it at the start.
pub main-Grown :
    (env : ℕ → Env) (fuel n : ℕ) (w : World) → Grown w.disk (main env fuel n w).world.disk
main-Grown env fuel n w =
    main-keeps (λ v. Grown w.disk v.disk) env
      (λ u v g.
        let r = session_round (env v.rounds) u v in
        Grown-trans w.disk v.disk (world_of r).disk g
          (Audited-Grown (env v.rounds).io u.username _ v r (round-Audited (env v.rounds) u v)))
      (λ v g.
        let d : Disk = (world_of (login_round (env v.rounds) v)).disk in
        Grown-trans w.disk v.disk d g (login_round-Grown (env v.rounds) v))
      fuel n w (Grown-same w.disk w.disk refl)
