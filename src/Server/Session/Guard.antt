-- ===== src/Server/Session/Guard.antt =====
-- Who may do what: one command of `handle_client`, before and after authentication.
use samuel_basnet_240512_st.Prelude.{
  ℕ, ◌+◌, ◌≤◌, ◌<◌, Bytes, codes, true, false, ◌↔◌, ◌&&◌, ◌||◌, List, [], ◌∷◌, ◌≡◌, refl, ◌⊎◌,
  str_eq, str_eq_iff, arith,
}
use samuel_basnet_240512_st.Server.Store.{Slots}
use samuel_basnet_240512_st.Server.Input.{Words}
use samuel_basnet_240512_st.Server.Session.{
  Credential, Client, Effect, Log, valid_users, known_user, handle_auth, handle_put, handle_get,
  handle_del, handle_list, dispatch, handle_words, max_auth_attempts,
}

abbrev failed_entry : Log → ℕ
failed_entry (Log.auth_failed user n) = 1
failed_entry _ = 0

-- The failed logins that a log records.
unfoldable pub count_failed : List Log → ℕ
count_failed [] = 0
count_failed (l ∷ ls) = failed_entry l + count_failed ls

-- One of the credentials has this name and this password.
abbrev pub Entitled : Bytes → Bytes → List Credential → Type 0
Entitled user pass [] = ⊥
Entitled user pass (u ∷ us) = ((user ≡ u.username) × (pass ≡ u.password)) ⊎ Entitled user pass us

known-Entitled :
    (user pass : Bytes) (us : List Credential)
    → known_user user pass us ≡ true
    → Entitled user pass us
unfolding known_user
known-Entitled user pass [] h = absurd (ground arith)
known-Entitled user pass (u ∷ us) h =
    ground
      (arith, known-Entitled user pass us, str_eq_iff user u.username, str_eq_iff pass u.password)

Entitled-known :
    (user pass : Bytes) (us : List Credential)
    → Entitled user pass us
    → known_user user pass us ≡ true
unfolding known_user
Entitled-known user pass [] h = absurd h
Entitled-known user pass (u ∷ us) h =
    ground
      (arith, Entitled-known user pass us, str_eq_iff user u.username, str_eq_iff pass u.password)

module _ (stack : Bytes) (w : Words) (c : Client) (s : Slots) where
  abbrev result : Effect
  result = handle_words stack w c s

  put-client : (handle_put w c s).client ≡ c
  unfolding handle_put
  put-client = ground arith

  get-client : (handle_get w c s).client ≡ c
  unfolding handle_get
  get-client = ground arith

  del-client : (handle_del w c s).client ≡ c
  unfolding handle_del
  del-client = ground arith

  list-client : (handle_list stack c s).client ≡ c
  unfolding handle_list
  list-client = refl

  dispatch-client : (dispatch stack w c s).client ≡ c
  unfolding dispatch
  dispatch-client = ground (arith, put-client, get-client, del-client, list-client)

  put-quiet : count_failed (handle_put w c s).logged ≡ 0
  unfolding handle_put count_failed
  put-quiet = ground arith

  get-quiet : count_failed (handle_get w c s).logged ≡ 0
  unfolding handle_get count_failed
  get-quiet = ground arith

  del-quiet : count_failed (handle_del w c s).logged ≡ 0
  unfolding handle_del count_failed
  del-quiet = ground arith

  list-quiet : count_failed (handle_list stack c s).logged ≡ 0
  unfolding handle_list count_failed
  list-quiet = refl

  dispatch-quiet : count_failed (dispatch stack w c s).logged ≡ 0
  unfolding dispatch count_failed
  dispatch-quiet = ground (arith, put-quiet, get-quiet, del-quiet, list-quiet)

  auth-store : (handle_auth w c s).store ≡ s
  unfolding handle_auth
  auth-store = ground arith

  -- A client that has not logged in leaves every slot of the store as it was, whatever it sends.
  pub store-unauthenticated : c.authenticated ≡ false → result.store ≡ s
  unfolding handle_words
  store-unauthenticated h = ground (arith, auth-store)

  after_command :
      result.client.authenticated
      ≡ (c.authenticated || str_eq w.cmd (codes "AUTH") && known_user w.arg1 w.arg2 valid_users)
  unfolding handle_words handle_auth
  after_command = ground (arith, dispatch-client)

  -- Whatever the command: afterwards a client is logged in exactly when it was before, or the words
  -- are AUTH with the name of one of the valid users and that user's password.
  pub authenticated_iff :
      (result.client.authenticated ≡ true)
      ↔ ((c.authenticated ≡ true) ⊎ ((w.cmd ≡ codes "AUTH") × Entitled w.arg1 w.arg2 valid_users))
  authenticated_iff =
      let is_auth = str_eq_iff w.cmd (codes "AUTH") in
      (
        λ h. ground (arith, after_command, is_auth, known-Entitled w.arg1 w.arg2 valid_users),
        λ h. ground (arith, after_command, is_auth, Entitled-known w.arg1 w.arg2 valid_users),
      )

  -- The failed attempts that one command adds to the log.
  pub attempts-step :
      c.auth_attempts < max_auth_attempts
      → (result.client.auth_attempts ≡ c.auth_attempts + count_failed result.logged)
        × (result.client.auth_attempts ≤ max_auth_attempts)
        × ((result.running ≡ false) ⊎ (result.client.auth_attempts < max_auth_attempts))
  unfolding handle_words handle_auth count_failed
  attempts-step h = ground (arith, dispatch-client, dispatch-quiet)
