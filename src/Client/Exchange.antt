-- ===== src/Client/Exchange.antt =====
-- client.c and the session of server.c at the two ends of one connection of task4_network_ipc.
use mathlib.Core.List.{append-nil, map-append, append_assoc}
use samuel_basnet_240512_st.Prelude.{
  ℕ, zero, suc, ◌+◌, ◌≤◌, Bytes, codes, Bool, true, Option, some, List, [], ◌∷◌, ◌++◌, ◌≡◌, ◌≢◌,
  refl, ap, ◌∙◌, sym, arith, if◌then◌else◌, length, take, drop, length-take, take-append_short,
  strn_eq, c_str,
}
use samuel_basnet_240512_st.Prelude.Int.{pos, negsuc}
use samuel_basnet_240512_st.Prelude.Stdin.{IsPlain}
use samuel_basnet_240512_st.Server.Store.{Slots}
use samuel_basnet_240512_st.Server.Input.{
  max_line, Recv, Received, recv_line, send_line, scan_line, strip_cr,
}
use samuel_basnet_240512_st.Server.Input.Lines.{
  send_line_lem, arrive, NoNewline, recv_line-whole, recv_line-long, take-NoNewline,
}
use samuel_basnet_240512_st.Server.Session.{
  Client, Effect, handle_words, handle_received, Turn, done, turn,
}
use samuel_basnet_240512_st.Client.{
  Network, Console, again, leave, transmit, received, after_reply, talk, print,
}

-- The server's end: the variables of `handle_client`, the store, what is unread on its socket, and whether its loop still runs.
pub record Peer : Type 0 where
  pub client : Client
  pub store : Slots
  pub pending : List Recv
  pub live : Bool

abbrev joined : List Bytes → Bytes
joined [] = []
joined (b ∷ bs) = b ++ joined bs

-- What a round sends, and the end of the stream where it ended the session.
abbrev pub arrived : Effect → List Recv
arrived e = arrive (joined e.sent) ++ (if e.running then [] else Recv.closed ∷ [])

abbrev pub after_turn : Peer → List Recv → Turn → Peer × List Recv
after_turn p input Turn.blocked = (record p { pending = input }, [])
after_turn p input (done e rest) =
    (record { client = e.client; store = e.store; pending = rest; live = e.running }, arrived e)

-- One round of the loop of `handle_client` for the bytes that are sent.
unfoldable pub serve : Bytes → Network Peer
serve stack p bytes =
    let input = p.pending ++ arrive bytes in
    if p.live then after_turn p input (turn stack p.client p.store input) else (p, [])

pub plain-NoNewline : (l : Bytes) → IsPlain l → NoNewline l
plain-NoNewline [] h = tt
plain-NoNewline (c ∷ l) h = (h.0.0, plain-NoNewline l h.1)

send-short : (l : Bytes) → length l ≤ 511 → send_line l ≡ l ++ codes "\n"
send-short l le = ground (arith, send_line_lem l)

arrive-line : (l : Bytes) → arrive (l ++ codes "\n") ≡ arrive l ++ Recv.byte 10 ∷ []
arrive-line l = map-append Recv.byte l (codes "\n")

received-words :
    (stack : Bytes) (c : Client) (s : Slots) (l b : Bytes)
    → l ≢ []
    → handle_received stack (pos (length l)) b c s ≡ handle_words stack (scan_line b) c s
unfolding handle_received
received-words stack c s [] b ne = absurd (ne refl)
received-words stack c s (x ∷ l) b ne = refl

-- A line of 1 to 510 bytes that client.c sends is one line at the server.
pub turn-line :
    (stack : Bytes) (c : Client) (s : Slots) (l : Bytes)
    → NoNewline l
    → l ≢ []
    → length l ≤ 510
    → turn stack c s (arrive (send_line l))
      ≡ done (handle_words stack (scan_line (strip_cr l)) c s) []
unfolding turn
turn-line stack c s l p ne le =
    let sent =
      ap (λ (b : Bytes). recv_line max_line (arrive b)) (send-short l (omega arith))
      ∙ (ap (recv_line max_line) (arrive-line l) ∙ recv_line-whole l [] p le) in
    rw sent (ap (λ (e : Effect). done e []) (received-words stack c s l (strip_cr l) ne))

take-nil : (n : ℕ) → take {A = ℕ} n [] ≡ []
take-nil zero = refl
take-nil (suc n) = refl

take-split : (k n m : ℕ) (xs : Bytes) → k ≡ n + m → take k xs ≡ take n xs ++ take m (drop n xs)
take-split k zero m xs e = ap (λ (j : ℕ). take j xs) (omega arith)
take-split zero (suc n) m xs e = absurd (omega arith)
take-split (suc k) (suc n) m [] e = sym (take-nil m)
take-split (suc k) (suc n) m (x ∷ xs) e = ap (◌∷◌ x) (take-split k n m xs (omega arith))

send-long :
    (r : Bytes) → 511 ≤ length r → send_line r ≡ take 511 r ++ take 2 (drop 511 (r ++ codes "\n"))
unfolding send_line
send-long r h =
    take-split 513 511 2 (r ++ codes "\n") refl
    ∙ ap (λ (b : Bytes). b ++ take 2 (drop 511 (r ++ codes "\n")))
        (take-append_short 511 r (codes "\n") h)

recv-long :
    (r : Bytes) (rest : List Recv)
    → NoNewline r
    → 511 ≤ length r
    → recv_line max_line (arrive (send_line r) ++ rest)
      ≡ some (record {
        ret = negsuc 0;
        line = [];
        rest = arrive (take 2 (drop 511 (r ++ codes "\n"))) ++ rest;
      })
recv-long r rest p h =
    let more = take 2 (drop 511 (r ++ codes "\n")) in
    rw
      (
        send-long r h,
        map-append Recv.byte (take 511 r) more,
        append_assoc (arrive (take 511 r)) (arrive more) rest,
      )
      (recv_line-long (take 511 r) (arrive more ++ rest) (take-NoNewline 511 r p)
        (omega (arith, length-take 511 r)))

recv-short :
    (r : Bytes) (rest : List Recv)
    → NoNewline r
    → length r ≤ 510
    → recv_line max_line (arrive (send_line r) ++ rest)
      ≡ some (record { ret = pos (length r); line = strip_cr r; rest = rest })
recv-short r rest p h =
    rw (send-short r (omega arith), arrive-line r, append_assoc (arrive r) (Recv.byte 10 ∷ []) rest)
      (recv_line-whole r rest p h)

received-line :
    {S : Type 0} (answer : Network S) (line r b : Bytes) (w : Console S)
    → r ≢ []
    → received answer line b w (pos (length r)) ≡ (
        if strn_eq 4 line (codes "QUIT")
        then leave (print (c_str b) w)
        else again (print (c_str b) w))
received-line answer line [] b w ne = absurd (ne refl)
received-line answer line (x ∷ r) b w ne = refl

module _ (stack : Bytes) (l : Bytes) (w : Console Peer) where
  abbrev pub handled : Effect
  handled = handle_words stack (scan_line (strip_cr l)) w.peer.client w.peer.store

  abbrev pub tail : List Recv
  tail = if handled.running then [] else Recv.closed ∷ []

  -- The state once the line is at the server and its answer on the socket.
  abbrev pub moved : List Recv → Console Peer
  moved inbox = record w {
    peer = record {
      client = handled.client;
      store = handled.store;
      pending = [];
      live = handled.running;
    };
    inbox = inbox;
    sent = w.sent ++ send_line l ∷ [];
  }

  module _ (live : w.peer.live ≡ true) (idle : w.peer.pending ≡ []) (read : w.inbox ≡ [])
      (p : NoNewline l) (ne : l ≢ []) (le : length l ≤ 510) where
    serve-line : serve stack w.peer (send_line l) ≡ (
      record {
        client = handled.client;
        store = handled.store;
        pending = [];
        live = handled.running;
      },
      arrived handled,
    )
    unfolding serve
    serve-line = rw (live, idle, turn-line stack w.peer.client w.peer.store l p ne le) refl

    transmit-line : transmit (serve stack) (send_line l) w ≡ moved (arrived handled)
    transmit-line = rw (serve-line, read) refl

    talk-recv :
        {o : Option Received}
        → recv_line max_line (arrived handled) ≡ o
        → talk (serve stack) l w ≡ after_reply (serve stack) l (moved (arrived handled)) o
    unfolding talk
    talk-recv e =
        ap (λ (v : Console Peer). after_reply (serve stack) l v (recv_line max_line v.inbox))
          transmit-line
        ∙ ap (after_reply (serve stack) l (moved (arrived handled))) e

    module _ (r : Bytes) (reply : handled.sent ≡ send_line r ∷ []) (q : NoNewline r) where
      arrived-line : arrived handled ≡ arrive (send_line r) ++ tail
      arrived-line = rw (reply, append-nil) refl

      -- A line of 1 to 510 bytes is handled by the server as one command, and its answer of 1 to 510 bytes is printed up to its first NUL, whichever command it is. Nothing stays on the way.
      pub talk-answered :
          r ≢ []
          → length r ≤ 510
          → talk (serve stack) l w ≡ (
              let v = print (c_str (strip_cr r)) (moved tail) in
              if strn_eq 4 l (codes "QUIT") then leave v else again v)
      talk-answered some_bytes short =
          talk-recv (ap (recv_line max_line) arrived-line ∙ recv-short r tail q short)
          ∙ received-line (serve stack) l r (strip_cr r) (moved tail) some_bytes

      -- An answer of more than 510 bytes, such as that to a LIST of many keys, does not get through:
      -- the client prints an error and leaves its loop, although the server has answered the command
      -- as it should.
      pub talk-long :
          511 ≤ length r
          → (inbox : List Recv) × (talk (serve stack) l w
              ≡ leave (print (codes "Connection error or server response too long.") (moved inbox)))
      talk-long long = (
        arrive (take 2 (drop 511 (r ++ codes "\n"))) ++ tail,
        talk-recv (ap (recv_line max_line) arrived-line ∙ recv-long r tail q long),
      )
