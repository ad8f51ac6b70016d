-- ===== src/Server/Session/Run.antt =====
-- The loop of `handle_client` for one connection, with nobody else at the store.
use samuel_basnet_240512_st.Prelude.{
  ℕ, zero, suc, ◌+◌, ◌≤◌, ◌<◌, Bytes, true, false, Option, none, some, List, [], ◌++◌, ◌≡◌, refl,
  ◌≢◌, ◌⊎◌, inl, inr, if◌then◌else◌, length, arith, if-cases,
}
use samuel_basnet_240512_st.Prelude.Int.{ℤ, pos, negsuc}
use samuel_basnet_240512_st.Server.Store.{Slots}
use samuel_basnet_240512_st.Server.Input.{max_line, Recv, Received, recv_line, scan_line}
use samuel_basnet_240512_st.Server.Input.Lines.{recv_line-lt, peer_ends, gives_up, recv_line-ends}
use samuel_basnet_240512_st.Server.Session.{
  Client, Effect, Log, handle_received, Turn, blocked, done, after_recv, turn, max_auth_attempts,
}
use samuel_basnet_240512_st.Server.Session.Guard.{
  store-unauthenticated, authenticated_iff, attempts-step, count_failed,
}

-- How far the loop has come: it has left by `break`, it waits in `recv`, or the fuel was used up.
pub data Status : Type 0 where
  left waiting unfinished : Status

pub record Outcome : Type 0 where
  pub status : Status
  pub client : Client
  pub store : Slots
  pub sent : List Bytes
  pub logged : List Log

abbrev pub stop : Status → Client → Slots → Outcome
stop st c s = record { status = st; client = c; store = s; sent = []; logged = [] }

-- What a round sent and logged stands in front of the rest.
abbrev pub after : Effect → Outcome → Outcome
after e o = record o { sent = e.sent ++ o.sent; logged = e.logged ++ o.logged }

unfoldable pub run : ℕ → Bytes → Client → Slots → List Recv → Outcome
run zero stack c s input = stop unfinished c s
run (suc fuel) stack c s input = elim (turn stack c s input) [
  | blocked ↦ stop waiting c s
  | done e rest ↦
      let more = run fuel stack e.client e.store rest in
      after e (if e.running then more else stop left e.client e.store)
]

after_recv-done :
    (stack : Bytes) (c : Client) (s : Slots) (o : Option Received) {e : Effect} {rest : List Recv}
    → after_recv stack c s o ≡ done e rest
    → (r : Received) × (o ≡ some r) × (handle_received stack r.ret r.line c s ≡ e) × (r.rest ≡ rest)
after_recv-done stack c s none h = absurd (cc)
after_recv-done stack c s (some r) h = (r, refl, cc, cc)

-- A round that is done comes from a line, which it took off the socket.
pub turn-received :
    (stack : Bytes) (c : Client) (s : Slots) (input : List Recv) {e : Effect} {rest : List Recv}
    → turn stack c s input ≡ done e rest
    → (r : Received) × (handle_received stack r.ret r.line c s ≡ e) × (length rest < length input)
unfolding turn
turn-received stack c s input h =
    let (r, q, eff, left_over) = after_recv-done stack c s (recv_line max_line input) h in
    (r, eff, rw (← left_over) (recv_line-lt input r q))

module _ (stack line : Bytes) (c : Client) (s : Slots) where
  pub received-store :
      (n : ℤ) → c.authenticated ≡ false → (handle_received stack n line c s).store ≡ s
  unfolding handle_received
  received-store (pos zero) h = refl
  received-store (pos (suc n)) h = store-unauthenticated stack (scan_line line) c s h
  received-store (negsuc n) h = refl

  received-authenticated :
      (n : ℤ)
      → c.authenticated ≡ true
      → (handle_received stack n line c s).client.authenticated ≡ true
  unfolding handle_received
  received-authenticated (pos zero) h = h
  received-authenticated (pos (suc n)) h =
      ground (arith, authenticated_iff stack (scan_line line) c s)
  received-authenticated (negsuc n) h = h

  pub received-attempts :
      (n : ℤ)
      → c.auth_attempts < max_auth_attempts
      → let e = handle_received stack n line c s in
        (e.client.auth_attempts ≡ c.auth_attempts + count_failed e.logged)
        × (e.client.auth_attempts ≤ max_auth_attempts)
        × ((e.running ≡ false) ⊎ (e.client.auth_attempts < max_auth_attempts))
  unfolding handle_received count_failed
  received-attempts (pos zero) h = (omega arith, omega arith, inl refl)
  received-attempts (pos (suc n)) h = attempts-step stack (scan_line line) c s h
  received-attempts (negsuc n) h = (omega arith, omega arith, inl refl)

Turn-cases : (t : Turn) → (t ≡ blocked) ⊎ ((e : Effect) × (rest : List Recv) × (t ≡ done e rest))
Turn-cases blocked = inl refl
Turn-cases (done e rest) = inr (e, rest, refl)

-- With more fuel than there are bytes and events on the socket, it is not used up: the loop is left,
-- or it waits in `recv`.
run-finishes :
    (fuel : ℕ) (stack : Bytes) (c : Client) (s : Slots) (input : List Recv)
    → length input < fuel
    → (run fuel stack c s input).status ≢ unfinished
unfolding run
run-finishes zero stack c s input h = absurd (omega arith)
run-finishes (suc fuel) stack c s input h = elim (Turn-cases (turn stack c s input)) [
  | inl q ↦ ground arith
  | inr (e, rest, q) ↦
      let (r, eff, lt) = turn-received stack c s input q in
      ground (arith, run-finishes fuel stack e.client e.store rest)
]

received-gives_up :
    (stack line : Bytes) (c : Client) (s : Slots) (n : ℤ)
    → gives_up n ≡ true
    → (handle_received stack n line c s).running ≡ false
unfolding handle_received
received-gives_up stack line c s (pos zero) h = refl
received-gives_up stack line c s (pos (suc n)) h = absurd (ground arith)
received-gives_up stack line c s (negsuc n) h = refl

-- If the peer closes the connection, or `recv` fails, anywhere behind whatever was sent, then the
-- session ends: the loop is left, with fuel for as many rounds as there are bytes and events on the
-- socket, and one more. It neither waits in `recv` nor goes on.
pub run-leaves :
    (fuel : ℕ) (stack : Bytes) (c : Client) (s : Slots) (input : List Recv)
    → peer_ends input ≡ true
    → length input < fuel
    → (run fuel stack c s input).status ≡ left
unfolding run turn recv_line
run-leaves zero stack c s input h le = absurd (omega arith)
run-leaves (suc fuel) stack c s input h le =
    let (r, q, next) = recv_line-ends input h in
    let lt = recv_line-lt input r q in
    elim next [
      | inl over ↦ rw (q, received-gives_up stack r.line c s r.ret over) refl
      | inr still ↦
          let e = handle_received stack r.ret r.line c s in
          let rest = run-leaves fuel stack e.client e.store r.rest still (omega arith) in
          rw q (if-cases (λ (o : Outcome). o.status ≡ left) e.running (λ on. rest) (λ off. refl))
    ]

-- A client that is logged in stays so.
run-stays :
    (fuel : ℕ) (stack : Bytes) (c : Client) (s : Slots) (input : List Recv)
    → c.authenticated ≡ true
    → (run fuel stack c s input).client.authenticated ≡ true
unfolding run
run-stays zero stack c s input h = h
run-stays (suc fuel) stack c s input h = elim (Turn-cases (turn stack c s input)) [
  | inl q ↦ ground arith
  | inr (e, rest, q) ↦
      let (r, eff, lt) = turn-received stack c s input q in
      ground (
        arith,
        received-authenticated stack r.line c s r.ret h,
        run-stays fuel stack e.client e.store rest,
      )
]

-- Whatever is sent on a connection, if its client is not logged in at the end, then the store is as
-- it was at the beginning.
pub run-store :
    (fuel : ℕ) (stack : Bytes) (c : Client) (s : Slots) (input : List Recv)
    → (run fuel stack c s input).client.authenticated ≡ false
    → (run fuel stack c s input).store ≡ s
unfolding run
run-store zero stack c s input h = refl
run-store (suc fuel) stack c s input h = elim (Turn-cases (turn stack c s input)) [
  | inl q ↦ ground arith
  | inr (e, rest, q) ↦
      let (r, eff, lt) = turn-received stack c s input q in
      ground (
        arith,
        received-store stack r.line c s r.ret,
        received-authenticated stack r.line c s r.ret,
        run-stays fuel stack e.client e.store rest,
        run-store fuel stack e.client e.store rest,
      )
]
