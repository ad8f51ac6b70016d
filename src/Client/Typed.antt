-- ===== src/Client/Typed.antt =====
-- A line that a user types at client.c, with server.c at the other end of the connection.
use samuel_basnet_240512_st.Prelude.{
  ℕ, suc, ◌≤◌, Bytes, codes, true, false, some, [], ◌∷◌, ◌++◌, ◌≡◌, ◌≢◌, refl, ap, ◌∙◌, arith, ◌==◌,
  length, strn_eq, str_eq, c_str,
}
use samuel_basnet_240512_st.Prelude.Stdin.{IsPlain, fgets-whole, line_of-whole}
use samuel_basnet_240512_st.Server.Input.{max_line, send_line, strip_cr}
use samuel_basnet_240512_st.Server.Input.Lines.{NoNewline}
use samuel_basnet_240512_st.Client.{
  Network, Console, Next, again, carry, talk, round, loop, print, read_from, read_stdin_line,
  after_line,
}
use samuel_basnet_240512_st.Client.Exchange.{
  Peer, serve, handled, moved, talk-answered, plain-NoNewline,
}

positive : (n : ℕ) → (suc n == 0) ≡ false
positive n = ground arith

read-typed :
    (l rest : Bytes)
    → IsPlain l
    → length l ≤ 510
    → read_stdin_line max_line (l ++ 10 ∷ rest) ≡ (some l, rest)
unfolding read_stdin_line
read-typed l rest p le = ap read_from (fgets-whole 511 l rest p (omega arith)) ∙ whole l p
  where
    whole : (b : Bytes) → IsPlain b → read_from (b ++ 10 ∷ [], rest) ≡ (some b, rest)
    whole [] q = ap (λ (t : Bytes). (some t, rest)) (line_of-whole [] q)
    whole (c ∷ b) q = ap (λ (t : Bytes). (some t, rest)) (line_of-whole (c ∷ b) q)

-- A line that the user types, but for `HELP`, goes to the server.
pub round-typed :
    {S : Type 0} (answer : Network S) (w : Console S) (l rest : Bytes)
    → w.input ≡ l ++ 10 ∷ rest
    → IsPlain l
    → l ≢ []
    → length l ≤ 510
    → str_eq l (codes "HELP") ≡ false
    → round answer w ≡ talk answer l (record w { input = rest })
unfolding round
round-typed answer w l rest typed p ne le other =
    ap (λ (i : Bytes). after_line answer w (read_stdin_line max_line i)) typed
    ∙ (ap (after_line answer w) (read-typed l rest p le) ∙ sent l ne other)
  where
    sent :
        (b : Bytes)
        → b ≢ []
        → str_eq b (codes "HELP") ≡ false
        → after_line answer w (some b, rest) ≡ talk answer b (record w { input = rest })
    sent [] n o = absurd (n refl)
    sent (c ∷ b) n o = rw (positive (length b), o) refl

-- The connection is up and quiet.
pub record IsIdle (w : Console Peer) : Type 0 where
  pub live : w.peer.live ≡ true
  pub idle : w.peer.pending ≡ []
  pub read : w.inbox ≡ []

module _ (stack : Bytes) (w : Console Peer) (l rest r : Bytes) where
  abbrev start : Console Peer
  start = record w { input = rest }

  abbrev pub answered : Console Peer
  answered = print (c_str (strip_cr r)) (moved stack l start [])

  pub loop-answered :
      (fuel : ℕ)
      → IsIdle w
      → w.input ≡ l ++ 10 ∷ rest
      → IsPlain l
      → l ≢ []
      → length l ≤ 510
      → str_eq l (codes "HELP") ≡ false
      → strn_eq 4 l (codes "QUIT") ≡ false
      → (handled stack l w).running ≡ true
      → (handled stack l w).sent ≡ send_line r ∷ []
      → NoNewline r
      → r ≢ []
      → length r ≤ 510
      → (loop (serve stack) (suc fuel) w ≡ loop (serve stack) fuel answered) × IsIdle answered
  unfolding loop
  loop-answered fuel up typed p ne le h q on reply pr nr lr = (
    ap (λ (n : Next Peer). carry n (loop (serve stack) fuel)) next,
    record { live = on; idle = refl; read = refl },
  )
    where
      next : round (serve stack) w ≡ again answered
      next =
          round-typed (serve stack) w l rest typed p ne le h
          ∙ (talk-answered stack l start up.live up.idle up.read (plain-NoNewline l p) ne le r reply
                pr nr lr
              ∙ rw (q, on) refl)
