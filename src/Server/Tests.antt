-- ===== src/Server/Tests.antt =====
-- Runs of the server's functions, and its theorems at concrete inputs.
use samuel_basnet_240512_st.Prelude.{
  ◌↔◌, ◌⊎◌, ℕ, zero, suc, ◌≤◌, Bytes, codes, true, false, none, some, List, [], ◌∷◌, ◌++◌, ◌≡◌,
  refl, ◌≢◌, arith, str_eq, c_str,
}
use samuel_basnet_240512_st.Prelude.Int.{pos}
use samuel_basnet_240512_st.Server.Store.{Slots, empty_store, store_put, store_get}
use samuel_basnet_240512_st.Server.Store.Slots.{has}
use samuel_basnet_240512_st.Server.Store.Laws.{Distinct, count_used}
use samuel_basnet_240512_st.Server.Store.Map.{Map, empty_map, Op, Reply, run_map, run_store}
use samuel_basnet_240512_st.Server.Store.Refine.{Refines, Refines-empty, store-refines-map}
use samuel_basnet_240512_st.Server.Input.{
  max_line, Recv, recv_line, Words, scan_line, is_valid_token, send_line, skip_spaces, take_word,
  take_until_newline,
}
use samuel_basnet_240512_st.Server.Input.Lines.{arrive}
use samuel_basnet_240512_st.Server.Session.{
  Client, fresh_client, Effect, handle_words, handle_received, dispatch, handle_put, known_user,
  done, turn, valid_users,
}
use samuel_basnet_240512_st.Server.Session.Guard.{authenticated_iff, Entitled}
use samuel_basnet_240512_st.Server.Session.Run.{run, left, run-leaves}
use samuel_basnet_240512_st.Server.Session.Store.{
  map_command, line-Refines, put_words, get_words, put_full,
}
use samuel_basnet_240512_st.Server.System.{
  update, accepted, after_round, System, start, later, accept, round, init, IsSafe, Reach-IsSafe,
  Step-authenticated,
}

abbrev calls : List Op
calls =
    Op.put (codes "k") (codes "one")
    ∷ Op.put (codes "k") (codes "two")
    ∷ Op.get (codes "k")
    ∷ Op.del (codes "k")
    ∷ Op.get (codes "k")
    ∷ []

store-refines-map_example : run_store empty_store calls ≡ run_map empty_map calls
store-refines-map_example = store-refines-map calls (omega arith)

calls_replies :
    run_store empty_store calls
    ≡ Reply.stored true
      ∷ Reply.stored true
      ∷ Reply.found (some (codes "two"))
      ∷ Reply.deleted true
      ∷ Reply.found none
      ∷ []
unfolding run_store str_eq
calls_replies = refl

-- An empty line is taken for the end of the connection.
empty_line :
    recv_line max_line (Recv.byte 10 ∷ []) ≡ some (record { ret = pos 0; line = []; rest = [] })
unfolding recv_line
empty_line = refl

abbrev alice : Client
alice = record { authed_user = codes "alice"; authenticated = true; auth_attempts = 1 }

abbrev login : Words
login = record { cmd = codes "AUTH"; arg1 = codes "alice"; arg2 = codes "alicepass" }

login_works : (handle_words [] login fresh_client empty_store).sent ≡ codes "OK AUTH\n" ∷ []
unfolding handle_words str_eq known_user send_line
login_works = refl

authenticated_iff_example :
    ((handle_words [] login fresh_client empty_store).client.authenticated ≡ true) ↔ (
      (fresh_client.authenticated ≡ true)
      ⊎ ((login.cmd ≡ codes "AUTH") × Entitled login.arg1 login.arg2 valid_users))
authenticated_iff_example = authenticated_iff [] login fresh_client empty_store

abbrev guesses : List Recv
guesses = arrive (codes "AUTH bob x\nAUTH bob y\nAUTH bob z\nAUTH bob bobpass\n")

-- An AUTH arrives, and then the peer closes the connection in the middle of a line.
abbrev hangs_up : List Recv
hangs_up = arrive (codes "AUTH alice alicepass\nPU") ++ Recv.closed ∷ []

run-leaves_example : (run 30 [] fresh_client empty_store hangs_up).status ≡ left
run-leaves_example = run-leaves 30 [] fresh_client empty_store hangs_up refl (omega arith)

locked_out : (run 60 [] fresh_client empty_store guesses).client.authenticated ≡ false
unfolding run turn recv_line handle_received scan_line c_str skip_spaces take_word
    take_until_newline handle_words str_eq known_user
locked_out = refl

line-Refines_example :
    Refines
      (handle_words [] (scan_line (codes "PUT k v")) alice empty_store).store
      (map_command (scan_line (codes "PUT k v")) alice empty_map)
line-Refines_example = line-Refines [] (codes "PUT k v") alice Refines-empty

-- `n` used slots with keys of one byte.
abbrev used_slots : ℕ → Slots
used_slots zero = []
used_slots (suc n) = record { key = n ∷ []; value = codes "v"; used = true } ∷ used_slots n

has-used_slots : (n k : ℕ) → n ≤ k → has (k ∷ []) (used_slots n) ≡ false
unfolding has str_eq
has-used_slots zero k h = refl
has-used_slots (suc n) k h = ground (arith, has-used_slots n k)

Distinct-used_slots : (n : ℕ) → Distinct (used_slots n)
Distinct-used_slots zero = tt
Distinct-used_slots (suc n) = (λ u. has-used_slots n n (omega arith), Distinct-used_slots n)

abbrev full_map : Map
full_map = record { find = λ k. store_get k (used_slots 128); size = 128 }

full-Refines : Refines (used_slots 128) full_map
unfolding count_used
full-Refines = record {
  wf = record { distinct = Distinct-used_slots 128; slots = refl };
  agree = λ k. refl;
  counted = refl;
}

put_full_example :
    let e = handle_words [] (put_words (codes "new") (codes "v")) alice (used_slots 128) in
    (e.sent ≡ send_line (codes "OK PUT") ∷ [])
    × (e.store ≡ used_slots 128)
    × ((handle_words [] (get_words (codes "new")) alice e.store).sent
        ≡ send_line (codes "ERR GET not_found") ∷ [])
unfolding is_valid_token store_get str_eq
put_full_example =
    put_full [] alice (used_slots 128) full_map (codes "new") (codes "v") full-Refines refl refl
      (cc) (omega arith) refl (omega arith)

Reach-IsSafe_example : IsSafe (record { store = empty_store; conns = update init.conns 0 accepted })
Reach-IsSafe_example = Reach-IsSafe (later start (accept 0 refl))

-- One connection, of a user who has logged in, with a PUT on the socket.
abbrev put_waits : System
put_waits = record {
  store = empty_store;
  conns =
      λ i. record { client = alice; input = arrive (codes "PUT k v\n"); sent = []; live = true };
}

abbrev put_effect : Effect
put_effect = handle_words [] (put_words (codes "k") (codes "v")) alice empty_store

put_turn : turn [] alice empty_store (arrive (codes "PUT k v\n")) ≡ done put_effect []
unfolding turn recv_line handle_received scan_line c_str skip_spaces take_word take_until_newline
put_turn = refl

put_changes : put_effect.store ≢ empty_store
unfolding handle_words dispatch handle_put store_put str_eq is_valid_token
put_changes e = cc

Step-authenticated_example :
    let t : System = record {
      store = put_effect.store;
      conns = update put_waits.conns 0 (after_round (put_waits.conns 0) put_effect []);
    } in
    (i : ℕ) × (stack : Bytes) × (e : Effect) × (rest : List Recv) × ((put_waits.conns i).live
      ≡ true)
    × ((put_waits.conns i).client.authenticated ≡ true)
    × (turn stack (put_waits.conns i).client put_waits.store (put_waits.conns i).input
        ≡ done e rest)
    × (t.store ≡ e.store)
    × (t.conns ≡ update put_waits.conns i (after_round (put_waits.conns i) e rest))
Step-authenticated_example =
    Step-authenticated {s = put_waits} (round 0 [] refl put_turn) put_changes
