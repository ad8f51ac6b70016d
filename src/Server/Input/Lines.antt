-- ===== src/Server/Input/Lines.antt =====
-- What `recv_line` returns, for every stream of bytes.
use mathlib.Core.List.{append_assoc, append-nil, map-append}
use samuel_basnet_240512_st.Prelude.{
  leb, take_all, take-append_short, ℕ, zero, suc, ◌+◌, ◌≤◌, ◌<◌, Bytes, codes, Bool, true, false,
  Option, none, some, List, [], ◌∷◌, ◌++◌, map, ◌≡◌, refl, ◌≢◌, ◌==◌, if◌then◌else◌, length,
  length-append, take, drop, length-take, ap, sym, ◌∙◌, All, arith, Bool-cases, inl, inr, ◌⊎◌,
  if-cases,
}
use samuel_basnet_240512_st.Prelude.Int.{ℤ, pos, negsuc}
use samuel_basnet_240512_st.Server.Input.{
  max_line, Recv, Received, strip_cr, recv_loop, recv_line, send_line,
}

recv_loop-le :
    (left : ℕ) (line : Bytes) (input : List Recv) (r : Received)
    → recv_loop left line input ≡ some r
    → length r.rest ≤ length input
unfolding recv_loop
recv_loop-le zero line input r e = ground arith
recv_loop-le (suc left) line [] r e = ground arith
recv_loop-le (suc left) line (Recv.closed ∷ input) r e = ground arith
recv_loop-le (suc left) line (Recv.failed ∷ input) r e = ground arith
recv_loop-le (suc left) line (Recv.byte c ∷ input) r e =
    ground (arith, recv_loop-le left (line ++ c ∷ []) input r)

recv_loop-lt :
    (left : ℕ) (line : Bytes) (input : List Recv) (r : Received)
    → recv_loop (suc left) line input ≡ some r
    → length r.rest < length input
unfolding recv_loop
recv_loop-lt left line [] r e = ground arith
recv_loop-lt left line (Recv.closed ∷ input) r e = ground arith
recv_loop-lt left line (Recv.failed ∷ input) r e = ground arith
recv_loop-lt left line (Recv.byte c ∷ input) r e =
    ground (arith, recv_loop-le left (line ++ c ∷ []) input r)

-- Each line takes something off the socket.
pub recv_line-lt :
    (input : List Recv) (r : Received)
    → recv_line max_line input ≡ some r
    → length r.rest < length input
unfolding recv_line
recv_line-lt input r e = recv_loop-lt 510 [] input r e

-- Somewhere on the socket the peer has closed the connection, or `recv` fails.
abbrev pub peer_ends : List Recv → Bool
peer_ends [] = false
peer_ends (Recv.byte c ∷ input) = peer_ends input
peer_ends (Recv.closed ∷ input) = true
peer_ends (Recv.failed ∷ input) = true

-- The return values on which `handle_client` leaves its loop.
abbrev pub gives_up : ℤ → Bool
gives_up (pos zero) = true
gives_up (pos (suc n)) = false
gives_up (negsuc n) = true

abbrev GivesUpOrEnds : Option Received → Type 0
GivesUpOrEnds none = ⊥
GivesUpOrEnds (some r) = (gives_up r.ret ≡ true) ⊎ (peer_ends r.rest ≡ true)

recv_loop-ends :
    (left : ℕ) (line : Bytes) (input : List Recv)
    → peer_ends input ≡ true
    → GivesUpOrEnds (recv_loop left line input)
unfolding recv_loop
recv_loop-ends zero line input h = inl refl
recv_loop-ends (suc left) line [] h = absurd (ground arith)
recv_loop-ends (suc left) line (Recv.closed ∷ input) h = inl refl
recv_loop-ends (suc left) line (Recv.failed ∷ input) h = inl refl
recv_loop-ends (suc left) line (Recv.byte c ∷ input) h =
    if-cases GivesUpOrEnds (c == 10) (λ newline. inr h)
      (λ other. recv_loop-ends left (line ++ c ∷ []) input h)

Received-cases :
    (o : Option Received)
    → GivesUpOrEnds o
    → (r : Received) × (o ≡ some r) × ((gives_up r.ret ≡ true) ⊎ (peer_ends r.rest ≡ true))
Received-cases none h = absurd h
Received-cases (some r) h = (r, refl, h)

-- On a socket that the peer has closed, `recv_line` does not block: it returns 0 or less, or leaves
-- the end on the socket.
pub recv_line-ends :
    (input : List Recv)
    → peer_ends input ≡ true
    → (r : Received) × (recv_line max_line input ≡ some r)
      × ((gives_up r.ret ≡ true) ⊎ (peer_ends r.rest ≡ true))
unfolding recv_line
recv_line-ends input h = Received-cases (recv_line max_line input) (recv_loop-ends 511 [] input h)

-- Bytes that arrive one by one.
abbrev pub arrive : Bytes → List Recv
arrive = map Recv.byte

abbrev pub NoNewline : Bytes → Type 0
NoNewline l = All (λ c. c ≢ 10) l

ne-== : (a b : ℕ) → a ≢ b → (a == b) ≡ false
ne-== a b h = ground arith

loop-line :
    (left : ℕ) (pre l : Bytes) (rest : List Recv)
    → NoNewline l
    → length l < left
    → recv_loop left pre (arrive l ++ Recv.byte 10 ∷ rest)
      ≡ some (record { ret = pos (length (pre ++ l)); line = strip_cr (pre ++ l); rest = rest })
unfolding recv_loop
loop-line zero pre l rest h lt = absurd (omega arith)
loop-line (suc left) pre [] rest h lt = rw append-nil
loop-line (suc left) pre (c ∷ l) rest h lt =
    let more = loop-line left (pre ++ c ∷ []) l rest h.1 (omega arith) in
    let whole : (pre ++ c ∷ []) ++ l ≡ pre ++ c ∷ l = append_assoc pre (c ∷ []) l in
    rw (ne-== c 10 h.0) (rw whole at more)

-- A line of at most 510 bytes is returned whole, with its length as the return value, with one
-- carriage return at its end removed, and with what follows its newline left on the socket.
pub recv_line-whole :
    (l : Bytes) (rest : List Recv)
    → NoNewline l
    → length l ≤ 510
    → recv_line max_line (arrive l ++ Recv.byte 10 ∷ rest)
      ≡ some (record { ret = pos (length l); line = strip_cr l; rest = rest })
unfolding recv_line
recv_line-whole l rest h le = loop-line 511 [] l rest h (omega arith)

loop-long :
    (left : ℕ) (pre l : Bytes) (rest : List Recv)
    → NoNewline l
    → length l ≡ left
    → recv_loop left pre (arrive l ++ rest)
      ≡ some (record { ret = negsuc 0; line = []; rest = rest })
unfolding recv_loop
loop-long zero pre [] rest h e = refl
loop-long zero pre (c ∷ l) rest h e = absurd (omega arith)
loop-long (suc left) pre [] rest h e = absurd (omega arith)
loop-long (suc left) pre (c ∷ l) rest h e =
    ground (arith, loop-long left (pre ++ c ∷ []) l rest h.1)

-- After 511 bytes with no newline among them `recv_line` gives up with -1 and leaves the rest of
-- the line on the socket.
pub recv_line-long :
    (l : Bytes) (rest : List Recv)
    → NoNewline l
    → length l ≡ 511
    → recv_line max_line (arrive l ++ rest)
      ≡ some (record { ret = negsuc 0; line = []; rest = rest })
unfolding recv_line
recv_line-long l rest h e = loop-long 511 [] l rest h e

split-at : (n : ℕ) (l : Bytes) → take n l ++ drop n l ≡ l
split-at zero l = refl
split-at (suc n) [] = refl
split-at (suc n) (c ∷ l) = ap (◌∷◌ c) (split-at n l)

pub take-NoNewline : (n : ℕ) (l : Bytes) → NoNewline l → NoNewline (take n l)
take-NoNewline zero l p = tt
take-NoNewline (suc n) [] p = tt
take-NoNewline (suc n) (c ∷ l) p = (p.0, take-NoNewline n l p.1)

take_exact : (n : ℕ) (l : Bytes) → leb (length l) n ≡ false → length (take (n + 1) l) ≡ n + 1
take_exact n l h = ground (arith, length-take (n + 1) l)

arrive-split :
    (n : ℕ) (l : Bytes) (rest : List Recv)
    → arrive (take n l) ++ (arrive (drop n l) ++ rest) ≡ arrive l ++ rest
arrive-split n l rest =
    sym (append_assoc (arrive (take n l)) (arrive (drop n l)) rest)
    ∙ ap (λ (x : List Recv). x ++ rest)
        (sym (map-append Recv.byte (take n l) (drop n l)) ∙ ap arrive (split-at n l))

-- A line of at most 510 bytes is returned whole, with its length as the return value, with one
-- carriage return at its end removed, and with what follows its newline left on the socket. Of a
-- longer line the first 511 bytes are taken off the socket, and -1 is returned.
pub recv_line_lem :
    (l : Bytes) (rest : List Recv)
    → NoNewline l
    → recv_line max_line (arrive l ++ Recv.byte 10 ∷ rest)
      ≡ some (
          if leb (length l) 510
          then record { ret = pos (length l); line = strip_cr l; rest = rest }
          else record {
            ret = negsuc 0;
            line = [];
            rest = arrive (drop 511 l) ++ Recv.byte 10 ∷ rest;
          })
recv_line_lem l rest p = elim (Bool-cases (leb (length l) 510)) [
  | inl short ↦ rw short (recv_line-whole l rest p (ground arith))
  | inr long ↦ rw long (
      ap (recv_line max_line) (sym (arrive-split 511 l (Recv.byte 10 ∷ rest)))
      ∙ recv_line-long (take 511 l) (arrive (drop 511 l) ++ Recv.byte 10 ∷ rest)
          (take-NoNewline 511 l p) (take_exact 510 l long))
]

-- A message of at most 512 bytes is sent with its newline; of a longer one the first 513 bytes are
-- sent, and the newline is lost.
pub send_line_lem :
    (msg : Bytes)
    → send_line msg ≡ (if leb (length msg) 512 then msg ++ codes "\n" else take 513 msg)
unfolding send_line
send_line_lem msg = elim (Bool-cases (leb (length msg) 512)) [
  | inl le ↦
      rw le (take_all 513 (msg ++ codes "\n") (ground (arith, length-append msg (codes "\n"))))
  | inr gt ↦ rw gt (take-append_short 513 msg (codes "\n") (ground arith))
]
