-- ===== src/Server/Session/Store.antt =====
-- Commands of `handle_client` against the map that the store stands for.
use samuel_basnet_240512_st.Prelude.{
  ℕ, ◌-◌, ◌≤◌, Bytes, codes, Bool, true, false, not, ◌&&◌, ◌||◌, Option, none, some, [], ◌∷◌, ◌++◌,
  ◌≡◌, refl, ◌≢◌, if◌then◌else◌, length, take, arith, ltb, ◌==◌, str_eq, str_eq_refl, ◌∙◌, ap,
}
use samuel_basnet_240512_st.Server.Store.{
  Slots, store_put, store_get, store_del, max_key, max_value, max_store,
}
use samuel_basnet_240512_st.Server.Store.Laws.{is_some}
use samuel_basnet_240512_st.Server.Store.Map.{Map, map_put, map_del}
use samuel_basnet_240512_st.Server.Store.Refine.{
  put-refused, Fits, Refines, put-Refines, del-Refines,
}
use samuel_basnet_240512_st.Server.Input.{max_line, Words, scan_line, is_valid_token, send_line}
use samuel_basnet_240512_st.Server.Input.Scan.{scan_line-bounds}
use samuel_basnet_240512_st.Server.Session.{
  Client, Effect, handle_auth, handle_words, handle_put, handle_get, handle_del, handle_list,
  dispatch, get_reply,
}

-- What a command does to the map.
abbrev pub valid_put : Words → Bool
valid_put w =
    is_valid_token w.arg1 (max_key - 1)
    && not (length w.arg2 == 0)
    && not (ltb (max_value - 1) (length w.arg2))

abbrev pub map_command : Words → Client → Map → Map
map_command w c m =
    if str_eq w.cmd (codes "AUTH") || not c.authenticated
    then m
    else if str_eq w.cmd (codes "PUT")
    then if valid_put w then (map_put w.arg1 w.arg2 m).1 else m
    else if str_eq w.cmd (codes "GET")
    then m
    else if str_eq w.cmd (codes "DEL")
    then if is_valid_token w.arg1 (max_key - 1) then (map_del w.arg1 m).1 else m
    else m

-- The same with the operations on the slots.
abbrev store_command : Words → Client → Slots → Slots
store_command w c s =
    if str_eq w.cmd (codes "AUTH") || not c.authenticated
    then s
    else if str_eq w.cmd (codes "PUT")
    then if valid_put w then (store_put w.arg1 w.arg2 s).1 else s
    else if str_eq w.cmd (codes "GET")
    then s
    else if str_eq w.cmd (codes "DEL")
    then if is_valid_token w.arg1 (max_key - 1) then (store_del w.arg1 s).1 else s
    else s

Refines-if :
    (b : Bool) {s s' : Slots} {m m' : Map}
    → Refines s m
    → Refines s' m'
    → Refines (if b then s else s') (if b then m else m')
Refines-if true r r' = r
Refines-if false r r' = r'

module _ (stack : Bytes) (w : Words) (c : Client) (s : Slots) where
  put-store : (handle_put w c s).store ≡ (if valid_put w then (store_put w.arg1 w.arg2 s).1 else s)
  unfolding handle_put
  put-store = ground arith

  get-store : (handle_get w c s).store ≡ s
  unfolding handle_get
  get-store = ground arith

  del-store :
      (handle_del w c s).store
      ≡ (if is_valid_token w.arg1 (max_key - 1) then (store_del w.arg1 s).1 else s)
  unfolding handle_del
  del-store = ground arith

  list-store : (handle_list stack c s).store ≡ s
  unfolding handle_list
  list-store = refl

  auth-store : (handle_auth w c s).store ≡ s
  unfolding handle_auth
  auth-store = ground arith

  words-store : (handle_words stack w c s).store ≡ store_command w c s
  unfolding handle_words dispatch
  words-store = ground (arith, put-store, get-store, del-store, list-store, auth-store)

-- A line acts on the slots as the command in it acts on the map, for every line, client and state
-- of the store: PUT and DEL of a logged-in client with valid arguments put and delete, and all else
-- leaves the map alone. In particular no line breaks the invariant of the slots.
pub line-Refines :
    (stack line : Bytes) (c : Client) {s : Slots} {m : Map}
    → Refines s m
    → Refines (handle_words stack (scan_line line) c s).store (map_command (scan_line line) c m)
line-Refines stack line c {s} {m} r =
    let w = scan_line line in
    let (fc, fk, fv) = scan_line-bounds line in
    rw (words-store stack w c s) (
      Refines-if (str_eq w.cmd (codes "AUTH") || not c.authenticated) r (
        Refines-if (str_eq w.cmd (codes "PUT"))
          (Refines-if (valid_put w) (put-Refines r w.arg1 w.arg2 fk fv).1 r)
          (Refines-if (str_eq w.cmd (codes "GET")) r (
            Refines-if (str_eq w.cmd (codes "DEL"))
              (Refines-if (is_valid_token w.arg1 (max_key - 1)) (del-Refines r w.arg1 []).1 r) r))))

abbrev pub put_words : Bytes → Bytes → Words
put_words k v = record { cmd = codes "PUT"; arg1 = k; arg2 = v }

abbrev pub get_words : Bytes → Words
get_words k = record { cmd = codes "GET"; arg1 = k; arg2 = [] }

length-valid : (k : Bytes) (n : ℕ) → is_valid_token k n ≡ true → length k ≤ n
unfolding is_valid_token
length-valid k n h = ground arith

not-empty : (v : Bytes) → v ≢ [] → (length v == 0) ≡ false
not-empty [] h = absurd (h refl)
not-empty (x ∷ v) h = ground arith

map_put-find :
    (m : Map) (k v : Bytes)
    → is_some (m.find k) || ltb m.size max_store ≡ true
    → (map_put k v m).1.find k ≡ some v
unfolding map_put
map_put-find m k v room = ground (arith, str_eq_refl k)

module _ (stack : Bytes) (c : Client) (s : Slots) (m : Map) (k v : Bytes) (r : Refines s m)
    (user : c.authenticated ≡ true) (token : is_valid_token k (max_key - 1) ≡ true)
    (some_bytes : v ≢ []) (fits : Fits v max_value) where
  abbrev put_effect : Effect
  put_effect = handle_words stack (put_words k v) c s

  valid : valid_put (put_words k v) ≡ true
  valid = ground (arith, not-empty v some_bytes)

  put_sent : put_effect.sent ≡ send_line (codes "OK PUT") ∷ []
  unfolding handle_words dispatch handle_put str_eq
  put_sent = ground (arith, valid)

  get_sent :
      (s' : Slots)
      → (handle_words stack (get_words k) c s').sent ≡ send_line (get_reply (store_get k s')) ∷ []
  unfolding handle_words dispatch handle_get str_eq
  get_sent s' = ground arith

  put_slots : put_effect.store ≡ (store_put k v s).1
  unfolding str_eq
  put_slots = words-store stack (put_words k v) c s ∙ ground (arith, valid)

  fk : Fits k max_key
  fk = length-valid k 63 token

  -- A logged-in client that puts a valid value (1 to 399 bytes) under a valid key, while the key is
  -- stored or fewer than 128 keys are, gets `OK PUT`, and a GET of the key gets that value back, cut
  -- to the 511 bytes of the reply's buffer.
  pub put-get :
      is_some (m.find k) || ltb m.size max_store ≡ true
      → (put_effect.sent ≡ send_line (codes "OK PUT") ∷ [])
        × ((handle_words stack (get_words k) c put_effect.store).sent
            ≡ send_line (take (max_line - 1) (codes "OK GET " ++ v)) ∷ [])
  put-get room = (
    put_sent,
    get_sent put_effect.store
        ∙ ap (λ (o : Option Bytes). send_line (get_reply o) ∷ [])
            (ap (store_get k) put_slots ∙ found),
  )
    where
      found : store_get k (store_put k v s).1 ≡ some v
      found = (put-Refines r k v fk fits).1.agree k ∙ map_put-find m k v room

  -- With 128 other keys stored, the PUT of a valid value under a valid key by a logged-in client is
  -- answered by `OK PUT` too, although the store is left as it was: a GET of the key that was just
  -- put gets `ERR GET not_found`.
  pub put_full :
      m.find k ≡ none
      → max_store ≤ m.size
      → (put_effect.sent ≡ send_line (codes "OK PUT") ∷ [])
        × (put_effect.store ≡ s)
        × ((handle_words stack (get_words k) c put_effect.store).sent
            ≡ send_line (codes "ERR GET not_found") ∷ [])
  put_full absent full = (
    put_sent,
    put_slots ∙ unchanged,
    get_sent put_effect.store
        ∙ ap (λ (o : Option Bytes). send_line (get_reply o) ∷ [])
            (ap (store_get k) (put_slots ∙ unchanged) ∙ (r.agree k ∙ absent)),
  )
    where
      unchanged : (store_put k v s).1 ≡ s
      unchanged = ap (λ (p : Bool × Slots). p.1) (put-refused r k v absent full)
