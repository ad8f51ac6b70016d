-- ===== src/Client.antt =====
-- task4_network_ipc/client.c: the loop that sends what the user types to the server and prints what
-- comes back. The network and the server behind it are an argument: what the sending of some bytes
-- makes of the other end, and what arrives from there.
pub mod Framing
pub mod Scan
pub mod Exchange
pub mod Typed
pub mod Commands
mod Tests
use samuel_basnet_240512_st.Prelude.{
  ℕ, zero, suc, ◌+◌, ◌-◌, Bytes, codes, Bool, true, false, not, Option, none, some, List, [], ◌∷◌,
  ◌++◌, ◌==◌, if◌then◌else◌, length, str_eq, strn_eq, c_str,
}
use samuel_basnet_240512_st.Prelude.Int.{ℤ, pos, negsuc}
use samuel_basnet_240512_st.Prelude.Stdin.{fgets, strip_newline, line_of}
use samuel_basnet_240512_st.Server.Input.{max_line, Recv, Received, recv_line, send_line}

-- `recv_line` and `send_line` of client.c have the same text as those of server.c.
abbrev pub client_recv_line : ℕ → List Recv → Option Received
client_recv_line = recv_line

abbrev pub client_send_line : Bytes → Bytes
client_send_line = send_line

abbrev pub read_from : Bytes × Bytes → Option Bytes × Bytes
read_from ([], rest) = (none, rest)
read_from (c ∷ cs, rest) = (some (line_of (c ∷ cs)), rest)

-- The line without its newline, `none` where 0 is returned, and the rest of the input.
unfoldable pub read_stdin_line : ℕ → Bytes → Option Bytes × Bytes
read_stdin_line size input = read_from (fgets (size - 1) input)

-- The program's state: standard input, what has arrived on the socket and is not read yet, the other
-- end, what was sent, message by message, and what was printed, line by line, but for the prompts.
pub record Console (S : Type 0) : Type 0 where
  pub input : Bytes
  pub inbox : List Recv
  pub peer : S
  pub sent : List Bytes
  pub printed : List Bytes

abbrev pub print : {S : Type 0} → Bytes → Console S → Console S
print t w = record w { printed = w.printed ++ t ∷ [] }

abbrev pub help : List Bytes
help =
    codes "Commands:"
    ∷ codes "  AUTH <username> <password>"
    ∷ codes "  PUT <key> <value>"
    ∷ codes "  GET <key>"
    ∷ codes "  DEL <key>"
    ∷ codes "  LIST"
    ∷ codes "  QUIT"
    ∷ []

-- `continue` or the end of the loop's body, `break`, and a `recv` that blocks.
pub data Next (S : Type 0) : Type 0 where
  again leave blocked : Console S → Next S

-- What the network makes of the bytes that are sent.
abbrev pub Network : Type 0 → Type 0
Network S = S → Bytes → S × List Recv

-- How far the loop has come: it has ended, it waits in `recv`, or the fuel was used up.
pub data Progress : Type 0 where
  ended waiting unfinished : Progress

-- What the calls of `main` in front of the loop come to, and what is printed of their arguments:
-- the address, the address with the port, and the error number.
pub record Calls : Type 0 where
  pub started : Bool
  pub opened : Bool
  pub parsed : Bool
  pub connected : Bool
  pub address : Bytes
  pub address_port : Bytes
  pub error : Bytes

-- The rest of the loop behind a round.
abbrev pub carry : {S : Type 0} → Next S → (Console S → Progress × Console S) → Progress × Console S
carry (again w) rest = rest w
carry (leave w) rest = (ended, w)
carry (blocked w) rest = (waiting, w)

module _ {S : Type 0} (answer : Network S) where
  -- The tests of `n`, the return of `recv_line`, and what is behind them: `printf("%s")` shows the
  -- bytes in front of the first NUL.
  abbrev pub received : (line response : Bytes) → Console S → ℤ → Next S
  received line response w (pos zero) = leave (print (codes "Server closed the connection.") w)
  received line response w (negsuc n) =
      leave (print (codes "Connection error or server response too long.") w)
  received line response w (pos (suc n)) =
      let w' = print (c_str response) w in
      if strn_eq 4 line (codes "QUIT") then leave w' else again w'

  abbrev pub after_reply : Bytes → Console S → Option Received → Next S
  after_reply line w none = blocked w
  after_reply line w (some r) = received line r.line (record w { inbox = r.rest }) r.ret

  abbrev pub transmit : Bytes → Console S → Console S
  transmit bytes w =
      let (peer, more) = answer w.peer bytes in
      record w { peer = peer; inbox = w.inbox ++ more; sent = w.sent ++ bytes ∷ [] }

  unfoldable pub talk : Bytes → Console S → Next S
  talk line w =
      let w' = transmit (client_send_line line) w in
      after_reply line w' (client_recv_line max_line w'.inbox)

  abbrev pub after_line : Console S → Option Bytes × Bytes → Next S
  after_line w (none, rest) =
      leave (print (codes "\nEOF on input, closing connection.") (record w { input = rest }))
  after_line w (some line, rest) =
      let w' : Console S = record w { input = rest } in
      let spoken = talk line w' in
      if length line == 0
      then again w'
      else if str_eq line (codes "HELP")
      then again (record w' { printed = w'.printed ++ help })
      else spoken

  unfoldable pub round : Console S → Next S
  unfolding talk read_stdin_line
  round w = after_line w (read_stdin_line max_line w.input)

  unfoldable pub loop : ℕ → Console S → Progress × Console S
  unfolding round
  loop zero w = (unfinished, w)
  loop (suc fuel) w = carry (round w) (loop fuel)

  -- The exit status, `none` while the program runs, and the state at the end.
  abbrev pub Exit : Type 0
  Exit = Option ℕ × Console S

  abbrev pub closed : Progress × Console S → Exit
  closed (ended, w) = (some 0, print (codes "Disconnected.") w)
  closed (waiting, w) = (none, w)
  closed (unfinished, w) = (none, w)

  -- What goes to standard error is among what is printed.
  unfoldable pub main : Calls → ℕ → Console S → Exit
  unfolding loop
  main calls fuel w =
      let fail : Bytes → Console S → Exit = λ t w'. (some 1, print t w') in
      let w' = print (codes "Connecting to " ++ (calls.address_port ++ codes "...")) w in
      let end =
        closed (loop fuel (print (codes "Connected. Type HELP for available commands.") w')) in
      if not calls.started
      then fail (codes "WSAStartup failed") w
      else if not calls.opened
      then fail (codes "socket() failed: " ++ calls.error) w
      else if not calls.parsed
      then fail (codes "Invalid server address: " ++ calls.address) w
      else if not calls.connected
      then fail (codes "connect() failed: " ++ calls.error) w'
      else end
