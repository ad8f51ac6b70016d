-- ===== src/Server/System.antt =====
-- All connections of task4_network_ipc/server.c at once: a detached thread for each runs
-- `handle_client`, and the rounds of their loops interleave in any order over the one store.

use samuel_basnet_240512_st.Prelude.{
  ℕ, zero, suc, ◌<◌, Bytes, Bool, true, false, List, [], ◌∷◌, ◌++◌, ◌≡◌, refl, ◌≢◌, inl, inr, arith,
  Bool-cases, ◌==◌, if◌then◌else◌, ap, sym, ◌∙◌,
}
use samuel_basnet_240512_st.Prelude.Int.{ℤ, pos, negsuc}
use samuel_basnet_240512_st.Server.Store.{Slots, empty_store}
use samuel_basnet_240512_st.Server.Store.Map.{Map, empty_map}
use samuel_basnet_240512_st.Server.Store.Refine.{Refines, Refines-empty}
use samuel_basnet_240512_st.Server.Input.{Recv}
use samuel_basnet_240512_st.Server.Session.{
  Client, fresh_client, Effect, handle_received, done, turn, max_auth_attempts,
}
use samuel_basnet_240512_st.Server.Session.Run.{turn-received, received-store, received-attempts}
use samuel_basnet_240512_st.Server.Session.Store.{line-Refines}

-- A connection that is not `live` has no thread: it is not yet accepted, or closed.
pub record Conn : Type 0 where
  pub client : Client
  pub input : List Recv
  pub sent : List Bytes
  pub live : Bool

pub record System : Type 0 where
  pub store : Slots
  pub conns : ℕ → Conn

abbrev pub update : (ℕ → Conn) → ℕ → Conn → ℕ → Conn
update f i c j = if i == j then c else f j

abbrev pub accepted : Conn
accepted = record { client = fresh_client; input = []; sent = []; live = true }

abbrev pub after_round : Conn → Effect → List Recv → Conn
after_round c e rest = record {
  client = e.client;
  input = rest;
  sent = c.sent ++ e.sent;
  live = e.running;
}

-- `main` accepts a connection and starts its thread; the network delivers; a thread does a round.
pub data Step (s : System) : System → Type 0 where
  accept :
      (i : ℕ) → (s.conns i).live ≡ false → Step s (record s { conns = update s.conns i accepted })
  deliver :
      (i : ℕ) (r : Recv)
      → Step s (record s {
        conns = update s.conns i (record (s.conns i) { input = (s.conns i).input ++ r ∷ [] });
      })
  round :
      (i : ℕ) (stack : Bytes) {e : Effect} {rest : List Recv}
      → (s.conns i).live ≡ true
      → turn stack (s.conns i).client s.store (s.conns i).input ≡ done e rest
      → Step s
          (record { store = e.store; conns = update s.conns i (after_round (s.conns i) e rest) })

abbrev pub init : System
init = record {
  store = empty_store;
  conns = λ i. record { client = fresh_client; input = []; sent = []; live = false };
}

pub data Reach : System → Type 0 where
  start : Reach init
  later : {s t : System} → Reach s → Step s t → Reach t

pub record IsSafe (s : System) : Type 0 where
  pub map : Map
  pub refines : Refines s.store map
  pub attempts :
      (i : ℕ) → (s.conns i).live ≡ true → (s.conns i).client.auth_attempts < max_auth_attempts

received-Refines :
    (stack line : Bytes) (c : Client) {s : Slots} {m : Map} (n : ℤ)
    → Refines s m
    → (m' : Map) × Refines (handle_received stack n line c s).store m'
unfolding handle_received
received-Refines stack line c {s} {m} (pos zero) r = (m, r)
received-Refines stack line c (pos (suc n)) r = (_, line-Refines stack line c r)
received-Refines stack line c {s} {m} (negsuc n) r = (m, r)

Step-IsSafe : {s t : System} → Step s t → IsSafe s → IsSafe t
Step-IsSafe {s} (accept i dead) h = record {
  map = h.map;
  refines = h.refines;
  attempts = λ j l. ground (arith, h.attempts j);
}
Step-IsSafe {s} (deliver i r) h = record {
  map = h.map;
  refines = h.refines;
  attempts = λ j l. ground (arith, h.attempts j, h.attempts i);
}
Step-IsSafe {s} (round i stack {e} {rest} live q) h =
    let (r, eff, lt) = turn-received stack (s.conns i).client s.store (s.conns i).input q in
    let (m, ref) = received-Refines stack r.line (s.conns i).client r.ret h.refines in
    record {
      map = m;
      refines = rw eff at ref;
      attempts = λ j l. ground (
        arith,
        h.attempts j,
        h.attempts i,
        received-attempts stack r.line (s.conns i).client s.store r.ret,
        eff,
      );
    }

-- In every reachable state of the server, however the connections interleave, the slots of the
-- store stand for a finite map (128 slots, no key in two of them), and every connection that is
-- still served has fewer than three failed logins.
pub Reach-IsSafe : {s : System} → Reach s → IsSafe s
Reach-IsSafe start = record {
  map = empty_map;
  refines = Refines-empty;
  attempts = λ i l. omega arith;
}
Reach-IsSafe (later r st) = Step-IsSafe st (Reach-IsSafe r)

-- A step that changes the store is a round of one live connection that had itself logged in before:
-- the new store is what that round makes of the old one with that connection's own variables and
-- the bytes on its own socket, and nothing changes in any other connection.
pub Step-authenticated :
    {s t : System}
    → Step s t
    → t.store ≢ s.store
    → (i : ℕ) × (stack : Bytes) × (e : Effect) × (rest : List Recv) × ((s.conns i).live ≡ true)
      × ((s.conns i).client.authenticated ≡ true)
      × (turn stack (s.conns i).client s.store (s.conns i).input ≡ done e rest)
      × (t.store ≡ e.store)
      × (t.conns ≡ update s.conns i (after_round (s.conns i) e rest))
Step-authenticated (accept i dead) ne = absurd (ne refl)
Step-authenticated (deliver i r) ne = absurd (ne refl)
Step-authenticated {s} (round i stack {e} {rest} live q) ne =
    let (r, eff, lt) = turn-received stack (s.conns i).client s.store (s.conns i).input q in
    elim (Bool-cases (s.conns i).client.authenticated) [
      | inl yes_user ↦ (i, stack, e, rest, live, yes_user, q, refl, refl)
      | inr no_user ↦ absurd (
          ne (
            ap (λ (x : Effect). x.store) (sym eff)
            ∙ received-store stack r.line (s.conns i).client s.store r.ret no_user))
    ]
