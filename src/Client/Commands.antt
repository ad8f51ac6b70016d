-- ===== src/Client/Commands.antt =====
-- Commands that a user types at client.c, with server.c at the other end of the connection.
use samuel_basnet_240512_st.Prelude.{
  ℕ, suc, ◌≤◌, Bytes, codes, true, [], ◌∷◌, ◌++◌, ◌≡◌, ◌≢◌, ◌||◌, refl, ap, ◌∙◌, arith, ltb, length,
  length-append, strn_eq, str_eq, take_all, c_str,
}
use samuel_basnet_240512_st.Prelude.Stdin.{IsPlain}
use samuel_basnet_240512_st.Server.Store.{Slots, max_store}
use samuel_basnet_240512_st.Server.Store.Laws.{is_some}
use samuel_basnet_240512_st.Server.Store.Map.{Map}
use samuel_basnet_240512_st.Server.Store.Refine.{Refines}
use samuel_basnet_240512_st.Server.Input.{send_line, scan_line, Words, strip_cr, is_valid_token}
use samuel_basnet_240512_st.Server.Input.Lines.{NoNewline}
use samuel_basnet_240512_st.Server.Input.Scan.{c_str-text, IsWord, IsText, Starts, scan_line-format}
use samuel_basnet_240512_st.Server.Session.{
  Client, Effect, handle_words, dispatch, handle_put, handle_get,
}
use samuel_basnet_240512_st.Server.Session.Store.{put_words, get_words, put-get}
use samuel_basnet_240512_st.Client.{Console, loop}
use samuel_basnet_240512_st.Client.Scan.{scan_line-two, strip_cr-append, strip_cr-word}
use samuel_basnet_240512_st.Client.Exchange.{Peer, serve, handled, plain-NoNewline}
use samuel_basnet_240512_st.Client.Typed.{IsIdle, answered, loop-answered}

abbrev pub put_line : Bytes → Bytes → Bytes
put_line k v = codes "PUT" ++ 32 ∷ (k ++ 32 ∷ v)

abbrev pub get_line : Bytes → Bytes
get_line k = codes "GET" ++ 32 ∷ k

append-IsPlain : (a b : Bytes) → IsPlain a → IsPlain b → IsPlain (a ++ b)
append-IsPlain [] b p q = q
append-IsPlain (c ∷ a) b p q = (p.0, append-IsPlain a b p.1 q)

word-IsPlain : (k : Bytes) → IsWord k → IsPlain k
word-IsPlain [] h = tt
word-IsPlain (c ∷ k) h = (ground (arith, h.0), word-IsPlain k h.1)

pub append-NoNewline : (a b : Bytes) → NoNewline a → NoNewline b → NoNewline (a ++ b)
append-NoNewline [] b p q = q
append-NoNewline (c ∷ a) b p q = (p.0, append-NoNewline a b p.1 q)

Starts-nil : (v : Bytes) → Starts v → v ≢ []
Starts-nil [] h e = absurd h
Starts-nil (c ∷ v) h e = absurd (cc)

abbrev Word3 : Bytes → Type 0
Word3 b = IsWord b × (b ≢ []) × (length b ≤ 63)

put_word : Word3 (codes "PUT")
put_word = (grind arith, cc, omega arith)

get_word : Word3 (codes "GET")
get_word = (grind arith, cc, omega arith)

append-ne : (a b : Bytes) → b ≢ [] → a ++ b ≢ []
append-ne [] b ne e = ne e
append-ne (x ∷ a) b ne e = absurd (cc)

strip_cr-keeps : (a b : Bytes) → b ≢ [] → strip_cr b ≡ b → strip_cr (a ++ b) ≡ a ++ b
strip_cr-keeps a b ne e = strip_cr-append a b ne ∙ ap (λ (t : Bytes). a ++ t) e

module _ (stack k v : Bytes) (c : Client) (s : Slots) (user : c.authenticated ≡ true) where
  put-kept : let e = handle_words stack (put_words k v) c s in (e.client ≡ c) × (e.running ≡ true)
  unfolding handle_words dispatch handle_put str_eq
  put-kept = ground arith

  get-running : (handle_words stack (get_words k) c s).running ≡ true
  unfolding handle_words dispatch handle_get str_eq
  get-running = ground arith

module _ (stack : Bytes) (w : Console Peer) (m : Map) (k v rest : Bytes) (up : IsIdle w)
    (refines : Refines w.peer.store m) (user : w.peer.client.authenticated ≡ true) (word : IsWord k)
    (token : is_valid_token k 63 ≡ true) (key : k ≢ []) (lk : length k ≤ 63) (text : IsText v)
    (starts : Starts v) (cr : strip_cr v ≡ v) (lv : length v ≤ 399)
    (room : is_some (m.find k) || ltb m.size max_store ≡ true)
    (typed : w.input ≡ put_line k v ++ 10 ∷ (get_line k ++ 10 ∷ rest)) where
  abbrev put_rest : Bytes
  put_rest = get_line k ++ 10 ∷ rest

  abbrev c : Client
  c = w.peer.client

  abbrev put_effect : Effect
  put_effect = handle_words stack (put_words k v) c w.peer.store

  abbrev got : Bytes
  got = codes "OK GET " ++ v

  scan-get : scan_line (strip_cr (get_line k)) ≡ get_words k
  scan-get =
      let (iw, ne, le) = get_word in
      ap scan_line (strip_cr-keeps (codes "GET ") k key (strip_cr-word k word))
      ∙ scan_line-two (codes "GET") k iw word ne key le lk

  scan-put : scan_line (strip_cr (put_line k v)) ≡ put_words k v
  scan-put =
      let (iw, ne, le) = put_word in
      let value = strip_cr-keeps (32 ∷ []) v (Starts-nil v starts) cr in
      ap scan_line (
        strip_cr-keeps (codes "PUT ") (k ++ 32 ∷ v) (append-ne k (32 ∷ v) (cc))
          (strip_cr-keeps k (32 ∷ v) (cc) value))
      ∙ scan_line-format (codes "PUT") k v iw word text ne key starts le lk lv

  put-handled : handled stack (put_line k v) w ≡ put_effect
  put-handled = ap (λ (x : Words). handle_words stack x c w.peer.store) scan-put

  abbrev between : Console Peer
  between = answered stack w (put_line k v) put_rest (codes "OK PUT")

  get-handled :
      handled stack (get_line k) between ≡ handle_words stack (get_words k) c put_effect.store
  get-handled =
      ap (λ (x : Words). handle_words stack x between.peer.client between.peer.store) scan-get
      ∙ (ap (λ (e : Effect). handle_words stack (get_words k) e.client e.store) put-handled
          ∙ ap (λ (x : Client). handle_words stack (get_words k) x put_effect.store)
              (put-kept stack k v c w.peer.store user).0)

  replies :
      (put_effect.sent ≡ send_line (codes "OK PUT") ∷ [])
      × ((handle_words stack (get_words k) c put_effect.store).sent ≡ send_line got ∷ [])
  replies =
      let (p, g) =
        put-get stack c w.peer.store m k v refines user token (Starts-nil v starts) (omega arith)
          room in
      (
        p,
        g
            ∙ ap (λ (b : Bytes). send_line b ∷ [])
                (take_all 511 got (omega (arith, length-append (codes "OK GET ") v))),
      )

  IsPlain-put : IsPlain (put_line k v) × (length (put_line k v) ≤ 510)
  IsPlain-put = (
    append-IsPlain (codes "PUT ") (k ++ 32 ∷ v) (grind arith)
        (append-IsPlain k (32 ∷ v) (word-IsPlain k word) ((omega arith, omega arith), text)),
    omega (arith, length-append k (32 ∷ v)),
  )

  after_put :
      (fuel : ℕ)
      → (loop (serve stack) (suc fuel) w ≡ loop (serve stack) fuel between) × IsIdle between
  unfolding strn_eq str_eq
  after_put fuel =
      let (p, le) = IsPlain-put in
      loop-answered stack w (put_line k v) put_rest (codes "OK PUT") fuel up typed p (cc) le refl
        refl
        (ap (λ (e : Effect). e.running) put-handled ∙ (put-kept stack k v c w.peer.store user).1)
        (ap (λ (e : Effect). e.sent) put-handled ∙ replies.0) (grind arith) (cc) (omega arith)

  abbrev after_get : Console Peer
  after_get = answered stack between (get_line k) rest got

  IsPlain-get : IsPlain (get_line k) × (length (get_line k) ≤ 510)
  IsPlain-get = (append-IsPlain (codes "GET ") k (grind arith) (word-IsPlain k word), omega arith)

  -- A user of client.c who is logged in at the server types `PUT <key> <value>` and `GET <key>`. For a
  -- valid key (1 to 63 printable bytes without white space) and a value of 1 to 399 bytes without NUL
  -- or newline, which neither begins with white space nor ends in a carriage return, and if the key
  -- is stored or there is room, the client prints `OK PUT` and `OK GET` with the value, and the
  -- connection is quiet again.
  pub typed-put-get :
      (fuel : ℕ)
      → (end : Console Peer) × (loop (serve stack) (suc (suc fuel)) w ≡ loop (serve stack) fuel end)
        × IsIdle end
        × (end.input ≡ rest)
        × (end.printed ≡ (w.printed ++ codes "OK PUT" ∷ []) ++ got ∷ [])
  unfolding strn_eq str_eq strip_cr c_str
  typed-put-get fuel =
      let (p, le) = IsPlain-get in
      let (first, quiet) = after_put (suc fuel) in
      let (second, still) =
        loop-answered stack between (get_line k) rest got fuel quiet refl p (cc) le refl refl
          (ap (λ (e : Effect). e.running) get-handled
            ∙ get-running stack k v c put_effect.store user)
          (ap (λ (e : Effect). e.sent) get-handled ∙ replies.1)
          (append-NoNewline (codes "OK GET ") v (grind arith) (plain-NoNewline v text)) (cc)
          (omega arith) in
      (
        after_get,
        first ∙ second,
        still,
        refl,
        ap (λ (b : Bytes). (w.printed ++ codes "OK PUT" ∷ []) ++ b ∷ [])
            (ap c_str (strip_cr-keeps (codes "OK GET ") v (Starts-nil v starts) cr)
              ∙ c_str-text got (append-IsPlain (codes "OK GET ") v (grind arith) text)),
      )
