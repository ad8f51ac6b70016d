-- ===== src/Server/Session.antt =====
-- `handle_client` of task4_network_ipc/server.c: one round of its loop as a function of the
-- client's variables, the shared store and what stands on the socket. A round calls at most one
-- store operation, under the lock, so rounds of different clients interleave as whole steps.
pub mod Guard
pub mod Run
pub mod Store
use samuel_basnet_240512_st.Prelude.{
  ℕ, zero, suc, ◌+◌, ◌-◌, ◌/◌, ◌%◌, Bytes, codes, Bool, true, false, not, ◌&&◌, ◌||◌, Option, none,
  some, List, [], ◌∷◌, ◌++◌, ltb, leb, ◌==◌, if◌then◌else◌, length, take, str_eq,
}
use samuel_basnet_240512_st.Prelude.Int.{ℤ, pos, negsuc}
use samuel_basnet_240512_st.Server.Store.{
  max_key, max_value, Slots, store_put, store_get, store_del, store_list,
}
use samuel_basnet_240512_st.Server.Input.{
  max_line, Recv, Received, recv_line, Words, scan_line, is_valid_token, send_line,
}

abbrev pub max_auth_attempts : ℕ
max_auth_attempts = 3

pub record Credential : Type 0 where
  pub username : Bytes
  pub password : Bytes

abbrev pub valid_users : List Credential
valid_users =
    record { username = codes "alice"; password = codes "alicepass" }
    ∷ record { username = codes "bob"; password = codes "bobpass" }
    ∷ []

-- The variables of `handle_client` that live across rounds.
pub record Client : Type 0 where
  pub authed_user : Bytes
  pub authenticated : Bool
  pub auth_attempts : ℕ

abbrev pub fresh_client : Client
fresh_client = record { authed_user = []; authenticated = false; auth_attempts = 0 }

-- The messages of `log_msg`, with what they print.
pub data Log : Type 0 where
  disconnected line_too_long too_many_attempts put_invalid : Log
  auth_success : (user : Bytes) → Log
  auth_failed : (user : Bytes) (attempt : ℕ) → Log
  rejected unknown : (cmd : Bytes) → Log
  put_key get_key del_key : (user key : Bytes) → Log
  list_keys : (user : Bytes) (count : ℕ) → Log
  quit : (user : Bytes) → Log

pub record Effect : Type 0 where
  pub client : Client
  pub store : Slots
  pub sent : List Bytes
  pub logged : List Log
  pub running : Bool

-- `continue`, and the end of the loop's body.
abbrev pub go_on : Client → Slots → List Bytes → List Log → Effect
go_on c s out logged = record { client = c; store = s; sent = out; logged = logged; running = true }

-- `break`
abbrev pub leave : Client → Slots → List Bytes → List Log → Effect
leave c s out logged = record {
  client = c;
  store = s;
  sent = out;
  logged = logged;
  running = false;
}

unfoldable pub known_user : Bytes → Bytes → List Credential → Bool
known_user user pass [] = false
known_user user pass (u ∷ us) =
    if str_eq user u.username && str_eq pass u.password then true else known_user user pass us

unfoldable pub handle_auth : Words → Client → Slots → Effect
unfolding known_user
handle_auth w c s =
    let n : ℕ = c.auth_attempts + 1 in
    let c' : Client = record c { auth_attempts = n } in
    if c.authenticated
    then go_on c s (send_line (codes "ERR already_authenticated") ∷ []) []
    else if known_user w.arg1 w.arg2 valid_users
    then go_on (record c { authenticated = true; authed_user = take (max_key - 1) w.arg1 }) s
        (send_line (codes "OK AUTH") ∷ []) (Log.auth_success w.arg1 ∷ [])
    else if leb max_auth_attempts n
    then leave c' s
        (send_line (codes "ERR AUTH invalid_credentials")
          ∷ send_line (codes "ERR too_many_attempts_closing")
          ∷ [])
        (Log.auth_failed w.arg1 n ∷ Log.too_many_attempts ∷ [])
    else go_on c' s (send_line (codes "ERR AUTH invalid_credentials") ∷ [])
        (Log.auth_failed w.arg1 n ∷ [])

-- The result of `store_put` is not looked at.
unfoldable pub handle_put : Words → Client → Slots → Effect
handle_put w c s =
    if not (is_valid_token w.arg1 (max_key - 1))
      || length w.arg2 == 0
      || ltb (max_value - 1) (length w.arg2)
    then go_on c s (send_line (codes "ERR PUT invalid_input") ∷ []) (Log.put_invalid ∷ [])
    else go_on c (store_put w.arg1 w.arg2 s).1 (send_line (codes "OK PUT") ∷ [])
        (Log.put_key c.authed_user w.arg1 ∷ [])

-- `snprintf(resp, sizeof(resp), "OK GET %s", value)`
abbrev pub get_reply : Option Bytes → Bytes
get_reply none = codes "ERR GET not_found"
get_reply (some value) = take (max_line - 1) (codes "OK GET " ++ value)

unfoldable pub handle_get : Words → Client → Slots → Effect
handle_get w c s =
    if not (is_valid_token w.arg1 (max_key - 1))
    then go_on c s (send_line (codes "ERR GET invalid_input") ∷ []) []
    else go_on c s (send_line (get_reply (store_get w.arg1 s)) ∷ [])
        (Log.get_key c.authed_user w.arg1 ∷ [])

abbrev pub del_reply : Bool → Bytes
del_reply true = codes "OK DEL"
del_reply false = codes "ERR DEL not_found"

unfoldable pub handle_del : Words → Client → Slots → Effect
handle_del w c s =
    let (deleted, s') = store_del w.arg1 s in
    if not (is_valid_token w.arg1 (max_key - 1))
    then go_on c s (send_line (codes "ERR DEL invalid_input") ∷ []) []
    else go_on c s' (send_line (del_reply deleted) ∷ []) (Log.del_key c.authed_user w.arg1 ∷ [])

-- `%d` of a number that is not negative; `fuel` bounds the digits.
digits_loop : ℕ → ℕ → Bytes → Bytes
digits_loop zero n acc = acc
digits_loop (suc fuel) n acc =
    let more = digits_loop fuel (n / 10) ((48 + n % 10) ∷ acc) in
    if ltb n 10 then (48 + n) ∷ acc else more

unfoldable pub decimal : ℕ → Bytes
unfolding digits_loop
decimal n = digits_loop (suc n) n []

abbrev pub shown_keys : Bytes → Option Bytes → Bytes
shown_keys stack none = stack
shown_keys stack (some keys) = keys

-- `keys` is not initialised: `stack` is the string that stands in it before `store_list` writes.
unfoldable pub handle_list : Bytes → Client → Slots → Effect
unfolding decimal
handle_list stack c s =
    let (count, keys) = store_list max_line s in
    let resp =
      take (max_line + 31)
        (codes "OK LIST " ++ (decimal count ++ (codes " " ++ shown_keys stack keys))) in
    go_on c s (send_line resp ∷ []) (Log.list_keys c.authed_user count ∷ [])

-- The commands of an authenticated client.
unfoldable pub dispatch : Bytes → Words → Client → Slots → Effect
unfolding handle_put handle_get handle_del handle_list
dispatch stack w c s =
    if str_eq w.cmd (codes "PUT")
    then handle_put w c s
    else if str_eq w.cmd (codes "GET")
    then handle_get w c s
    else if str_eq w.cmd (codes "DEL")
    then handle_del w c s
    else if str_eq w.cmd (codes "LIST")
    then handle_list stack c s
    else if str_eq w.cmd (codes "QUIT")
    then leave c s (send_line (codes "OK BYE") ∷ []) (Log.quit c.authed_user ∷ [])
    else go_on c s (send_line (codes "ERR unknown_command") ∷ []) (Log.unknown w.cmd ∷ [])

unfoldable pub handle_words : Bytes → Words → Client → Slots → Effect
unfolding handle_auth dispatch
handle_words stack w c s =
    if str_eq w.cmd (codes "AUTH")
    then handle_auth w c s
    else if not c.authenticated
    then go_on c s (send_line (codes "ERR not_authenticated") ∷ []) (Log.rejected w.cmd ∷ [])
    else dispatch stack w c s

-- The tests of `n`, the return of `recv_line`. A second test of `n == 0` behind these is never
-- reached.
unfoldable pub handle_received : Bytes → ℤ → Bytes → Client → Slots → Effect
unfolding handle_words scan_line
handle_received stack (pos zero) line c s = leave c s [] (Log.disconnected ∷ [])
handle_received stack (negsuc n) line c s =
    leave c s (send_line (codes "ERR protocol_violation") ∷ []) (Log.line_too_long ∷ [])
handle_received stack (pos (suc n)) line c s = handle_words stack (scan_line line) c s

pub data Turn : Type 0 where
  blocked : Turn
  done : Effect → List Recv → Turn

abbrev pub after_recv : Bytes → Client → Slots → Option Received → Turn
after_recv stack c s none = blocked
after_recv stack c s (some r) = done (handle_received stack r.ret r.line c s) r.rest

-- One round of the loop.
unfoldable pub turn : Bytes → Client → Slots → List Recv → Turn
turn stack c s input = after_recv stack c s (recv_line max_line input)
