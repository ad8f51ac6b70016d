-- ===== src/Client/Framing.antt =====
-- What client.c sends, and the end of its loop, whatever the server answers.
use samuel_basnet_240512_st.Prelude.{
  ℕ, zero, suc, ◌-◌, ◌≤◌, ◌<◌, Bytes, codes, false, Option, none, some, List, [], ◌∷◌, ◌++◌, ◌≡◌,
  ◌≢◌, ◌⊎◌, refl, ap, ◌∙◌, sym, arith, ◌==◌, All, length, c_str, inl, inr, str_eq, Bool-cases,
  subst,
}
use samuel_basnet_240512_st.Prelude.Int.{ℤ, pos, negsuc}
use samuel_basnet_240512_st.Prelude.Stdin.{fgets, strip_newline, IsPlain, fgets-lt, fgets-end}
use samuel_basnet_240512_st.Server.Input.{max_line, Received, recv_line, send_line}
use samuel_basnet_240512_st.Server.Input.Lines.{send_line_lem}
use samuel_basnet_240512_st.Client.{
  Network, Console, Next, again, leave, blocked, carry, Progress, unfinished, read_from,
  read_stdin_line, received, after_reply, transmit, talk, after_line, round, loop,
}

-- A newline only at the end.
abbrev OneNewline : Bytes → Type 0
OneNewline [] = Unit
OneNewline (c ∷ cs) = ((c ≢ 10) ⊎ (cs ≡ [])) × OneNewline cs

fgets-OneNewline : (n : ℕ) (input : Bytes) → OneNewline (fgets n input).0
unfolding fgets
fgets-OneNewline zero input = tt
fgets-OneNewline (suc n) [] = tt
fgets-OneNewline (suc n) (c ∷ cs) = ground (arith, fgets-OneNewline n cs)

abbrev IsString : Bytes → Type 0
IsString b = All (λ c. c ≢ 0) b

c_str-OneNewline : (b : Bytes) → OneNewline b → OneNewline (c_str b)
unfolding c_str
c_str-OneNewline [] h = tt
c_str-OneNewline (c ∷ []) h = ground arith
c_str-OneNewline (c ∷ d ∷ cs) h = ground (arith, c_str-OneNewline (d ∷ cs) h.1)

c_str-IsString : (b : Bytes) → IsString (c_str b)
unfolding c_str
c_str-IsString [] = tt
c_str-IsString (c ∷ cs) = ground (arith, c_str-IsString cs)

strip-IsPlain : (b : Bytes) → OneNewline b → IsString b → IsPlain (strip_newline b)
unfolding strip_newline
strip-IsPlain [] h s = tt
strip-IsPlain (c ∷ []) h s = ground arith
strip-IsPlain (c ∷ d ∷ cs) h s = ground (arith, strip-IsPlain (d ∷ cs) h.1 s.1)

length-c_str : (b : Bytes) → length (c_str b) ≤ length b
unfolding c_str
length-c_str [] = omega arith
length-c_str (c ∷ cs) = ground (arith, length-c_str cs)

length-strip : (b : Bytes) → length (strip_newline b) ≤ length b
unfolding strip_newline
length-strip [] = omega arith
length-strip (c ∷ []) = ground arith
length-strip (c ∷ d ∷ cs) = ground (arith, length-strip (d ∷ cs))

length-fgets : (n : ℕ) (input : Bytes) → length (fgets n input).0 ≤ n
unfolding fgets
length-fgets zero input = omega arith
length-fgets (suc n) [] = omega arith
length-fgets (suc n) (c ∷ cs) = ground (arith, length-fgets n cs)

read_from-some :
    (p : Bytes × Bytes) {l rest : Bytes}
    → read_from p ≡ (some l, rest)
    → (l ≡ strip_newline (c_str p.0)) × (rest ≡ p.1)
unfolding strip_newline
read_from-some ([], r) e = absurd (cc)
read_from-some (c ∷ cs, r) e = (cc, cc)

-- What is read is a string that fits the buffer, with no newline in it.
pub read-IsPlain :
    (size : ℕ) (input : Bytes) {l rest : Bytes}
    → read_stdin_line size input ≡ (some l, rest)
    → IsPlain l × (length l ≤ size - 1)
unfolding read_stdin_line
read-IsPlain size input {l} {rest} e =
    let line = (fgets (size - 1) input).0 in
    let (q, r) = read_from-some (fgets (size - 1) input) e in
    (
      subst IsPlain (sym q) (
          strip-IsPlain (c_str line) (c_str-OneNewline line (fgets-OneNewline (size - 1) input))
            (c_str-IsString line)),
      rw q (
          omega
            (arith, length-strip (c_str line), length-c_str line, length-fgets (size - 1) input)),
    )

-- What the loop sends: a newline, and in front of it one to 511 bytes that are neither a newline nor NUL.
abbrev pub IsFrame : Bytes → Type 0
IsFrame b = (l : Bytes) × (b ≡ l ++ codes "\n") × (l ≢ []) × (length l ≤ 511) × IsPlain l

send-IsFrame : (l : Bytes) → l ≢ [] → length l ≤ 511 → IsPlain l → IsFrame (send_line l)
send-IsFrame l ne le p = (l, ground (arith, send_line_lem l), ne, le, p)

append-All : (P : Bytes → Type 0) (a b : List Bytes) → All P a → All P b → All P (a ++ b)
append-All P [] b h k = k
append-All P (x ∷ a) b h k = (h.0, append-All P a b h.1 k)

abbrev console_of : {S : Type 0} → Next S → Console S
console_of (again w) = w
console_of (leave w) = w
console_of (blocked w) = w

Next-cases :
    {S : Type 0} (n : Next S)
    → ((w : Console S) × (n ≡ again w))
      ⊎ (((w : Console S) × (n ≡ leave w)) ⊎ ((w : Console S) × (n ≡ blocked w)))
Next-cases (again w) = inl (w, refl)
Next-cases (leave w) = inr (inl (w, refl))
Next-cases (blocked w) = inr (inr (w, refl))

not-nil : (l : Bytes) → (length l == 0) ≡ false → l ≢ []
not-nil l h e = ground arith

module _ {S : Type 0} (answer : Network S) where
  received-sent :
      (line response : Bytes) (w : Console S) (n : ℤ)
      → let v = console_of (received answer line response w n) in
        (v.sent ≡ w.sent) × (v.input ≡ w.input)
  received-sent line response w (pos zero) = (refl, refl)
  received-sent line response w (negsuc n) = (refl, refl)
  received-sent line response w (pos (suc n)) = (ground arith, ground arith)

  reply-sent :
      (line : Bytes) (w : Console S) (o : Option Received)
      → let v = console_of (after_reply answer line w o) in (v.sent ≡ w.sent) × (v.input ≡ w.input)
  reply-sent line w none = (refl, refl)
  reply-sent line w (some r) = received-sent line r.line (record w { inbox = r.rest }) r.ret

  talk-sent :
      (line : Bytes) (w : Console S)
      → let v = console_of (talk answer line w) in
        (v.sent ≡ w.sent ++ send_line line ∷ []) × (v.input ≡ w.input)
  unfolding talk
  talk-sent line w =
      let w' = transmit answer (send_line line) w in
      reply-sent line w' (recv_line max_line w'.inbox)

  line-sent :
      (w : Console S) (line rest : Bytes)
      → IsPlain line
      → length line ≤ 511
      → All IsFrame w.sent
      → let v = console_of (after_line answer w (some line, rest)) in
        All IsFrame v.sent × (v.input ≡ rest)
  line-sent w line rest p le h = elim (Bool-cases (length line == 0)) [
    | inl e ↦ rw e (h, refl)
    | inr e ↦ rw e (elim (Bool-cases (str_eq line (codes "HELP"))) [
      | inl q ↦ rw q (h, refl)
      | inr q ↦
          let (sent, input) = talk-sent line (record w { input = rest }) in
          rw q (
            subst (All IsFrame) (sym sent) (
                append-All IsFrame w.sent (send_line line ∷ []) h
                  (send-IsFrame line (not-nil line e) le p, tt)),
            input,
          )
    ])
  ]

  read-cases :
      (w : Console S) (o : Option Bytes × Bytes)
      → read_stdin_line max_line w.input ≡ o
      → All IsFrame w.sent
      → let v = console_of (after_line answer w o) in All IsFrame v.sent × (v.input ≡ o.1)
  read-cases w (none, rest) e h = (h, refl)
  read-cases w (some line, rest) e h =
      let (p, le) = read-IsPlain max_line w.input e in line-sent w line rest p le h

  round-sent :
      (w : Console S)
      → All IsFrame w.sent
      → let v = console_of (round answer w) in
        All IsFrame v.sent × (v.input ≡ (read_stdin_line max_line w.input).1)
  unfolding round
  round-sent w h = read-cases w (read_stdin_line max_line w.input) refl h

  read-input :
      (w : Console S) (o : Option Bytes × Bytes) → (console_of (after_line answer w o)).input ≡ o.1
  read-input w (none, rest) = refl
  read-input w (some line, rest) = ground (arith, talk-sent line (record w { input = rest }))

  round-input : (w : Console S) → (console_of (round answer w)).input ≡ (fgets 511 w.input).1
  unfolding round read_stdin_line
  round-input w = read-input w (read_stdin_line max_line w.input) ∙ rest (fgets 511 w.input)
    where
      rest : (p : Bytes × Bytes) → (read_from p).1 ≡ p.1
      rest ([], r) = refl
      rest (c ∷ cs, r) = refl

  round-end : (w : Console S) (w' : Console S) → w.input ≡ [] → round answer w ≢ again w'
  unfolding round read_stdin_line
  round-end w w' e = ground (arith, fgets-end 511)

  round-lt : (w w' : Console S) → round answer w ≡ again w' → length w'.input < length w.input
  round-lt w w' e =
      let rest = ap (λ (n : Next S). (console_of n).input) (sym e) ∙ round-input w in
      rw rest (fgets-lt 510 w.input (λ nil. round-end w w' nil e))

  carry-finishes :
      (fuel : ℕ) (n : Next S)
      → ((w : Console S) → n ≡ again w → (loop answer fuel w).0 ≢ unfinished)
      → (carry n (loop answer fuel)).0 ≢ unfinished
  carry-finishes fuel (again w) later = later w refl
  carry-finishes fuel (leave w) later = λ e. cc
  carry-finishes fuel (blocked w) later = λ e. cc

  -- The loop ends, or waits for the server, after at most one round for each byte of the input and
  -- one more, whatever the server answers.
  pub loop-finishes :
      (fuel : ℕ) (w : Console S) → length w.input < fuel → (loop answer fuel w).0 ≢ unfinished
  unfolding loop
  loop-finishes zero w h = absurd (omega arith)
  loop-finishes (suc fuel) w h =
      carry-finishes fuel (round answer w)
        (λ w' e. loop-finishes fuel w' (omega (arith, round-lt w w' e)))

  carry-IsFrame :
      (n : Next S) (rest : Console S → Progress × Console S)
      → ((w : Console S) → All IsFrame w.sent → All IsFrame (rest w).1.sent)
      → All IsFrame (console_of n).sent
      → All IsFrame (carry n rest).1.sent
  carry-IsFrame (again w) rest later h = later w h
  carry-IsFrame (leave w) rest later h = h
  carry-IsFrame (blocked w) rest later h = h

  -- Whatever the user types and the server answers, each message that the loop sends is a single
  -- line of 1 to 511 bytes, no NUL among them, with its newline: it never sends an empty line, which
  -- the server would take for the end of the connection.
  pub loop-IsFrame :
      (fuel : ℕ) (w : Console S) → All IsFrame w.sent → All IsFrame (loop answer fuel w).1.sent
  unfolding loop
  loop-IsFrame zero w h = h
  loop-IsFrame (suc fuel) w h =
      carry-IsFrame (round answer w) (loop answer fuel) (loop-IsFrame fuel) (round-sent w h).0
