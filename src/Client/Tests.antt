-- ===== src/Client/Tests.antt =====
-- The theorems on task4_network_ipc/client.c at concrete inputs.
use samuel_basnet_240512_st.Prelude.{
  ℕ, zero, suc, Bytes, codes, true, List, [], ◌∷◌, ◌++◌, ◌≡◌, ◌≢◌, refl, arith, All, replicate,
  str_eq, strn_eq, c_str, take,
}
use samuel_basnet_240512_st.Prelude.Stdin.{fgets, strip_newline}
use samuel_basnet_240512_st.Server.Store.{Slots, empty_store, store_list}
use samuel_basnet_240512_st.Server.Store.Map.{empty_map}
use samuel_basnet_240512_st.Server.Store.Refine.{Refines-empty}
use samuel_basnet_240512_st.Server.Input.{
  Recv, send_line, recv_line, strip_cr, is_valid_token, scan_line, skip_spaces, take_word,
  take_until_newline,
}
use samuel_basnet_240512_st.Server.Input.Lines.{NoNewline, take-NoNewline}
use samuel_basnet_240512_st.Server.Session.{Client, handle_words, dispatch, handle_list, decimal}
use samuel_basnet_240512_st.Client.{
  Network, Console, leave, print, unfinished, talk, round, loop, read_stdin_line,
}
use samuel_basnet_240512_st.Client.Framing.{IsFrame, loop-finishes, loop-IsFrame}
use samuel_basnet_240512_st.Client.Exchange.{Peer, serve, handled, moved, talk-long}
use samuel_basnet_240512_st.Client.Typed.{IsIdle}
use samuel_basnet_240512_st.Client.Commands.{put_line, get_line, typed-put-get, append-NoNewline}

-- A server that answers everything by the same line.
abbrev echo : Network Unit
echo p bytes = (p, Recv.byte 111 ∷ Recv.byte 107 ∷ Recv.byte 10 ∷ [])

abbrev console : Bytes → Console Unit
console input = record { input = input; inbox = []; peer = tt; sent = []; printed = [] }

loop-finishes_example : (loop echo 20 (console (codes "HELP\n\nLIST\nQUIT\n"))).0 ≢ unfinished
loop-finishes_example = loop-finishes echo 20 (console (codes "HELP\n\nLIST\nQUIT\n")) (omega arith)

loop-IsFrame_example : All IsFrame (loop echo 20 (console (codes "HELP\n\nLIST\nQUIT\n"))).1.sent
loop-IsFrame_example = loop-IsFrame echo 20 (console (codes "HELP\n\nLIST\nQUIT\n")) tt

-- Only LIST and QUIT are sent.
sends_two :
    (loop echo 20 (console (codes "HELP\n\nLIST\nQUIT\n"))).1.sent
    ≡ codes "LIST\n" ∷ codes "QUIT\n" ∷ []
unfolding loop round read_stdin_line fgets strip_newline c_str str_eq talk send_line recv_line
    strn_eq
sends_two = refl

abbrev alice : Client
alice = record { authed_user = codes "alice"; authenticated = true; auth_attempts = 1 }

abbrev connected : Slots → Bytes → Console Peer
connected s input = record {
  input = input;
  inbox = [];
  peer = record { client = alice; store = s; pending = []; live = true };
  sent = [];
  printed = [];
}

abbrev typed : Bytes
typed = put_line (codes "k") (codes "a value") ++ 10 ∷ (get_line (codes "k") ++ 10 ∷ codes "QUIT\n")

typed-put-get_example :
    (end : Console Peer) × (loop (serve []) 7 (connected empty_store typed) ≡ loop (serve []) 5 end)
    × IsIdle end
    × (end.input ≡ codes "QUIT\n")
    × (end.printed ≡ codes "OK PUT" ∷ codes "OK GET a value" ∷ [])
unfolding is_valid_token strip_cr
typed-put-get_example =
    typed-put-get [] (connected empty_store typed) empty_map (codes "k") (codes "a value")
      (codes "QUIT\n") (record { live = refl; idle = refl; read = refl }) Refines-empty refl
      (grind arith) refl (cc) (omega arith) (grind arith) refl refl (omega arith) refl refl 5

-- Nine keys of 63 bytes.
abbrev long_keys : Slots
long_keys = replicate 9 (record { key = replicate 63 97; value = codes "v"; used = true })

abbrev lister : Console Peer
lister = connected long_keys []

abbrev key_texts : ℕ → Bytes
key_texts zero = []
key_texts (suc n) = replicate 63 97 ++ 32 ∷ key_texts n

abbrev long_reply : Bytes
long_reply = codes "OK LIST 8 " ++ take 511 (key_texts 9)

replicate-NoNewline : (n : ℕ) → NoNewline (replicate n 97)
replicate-NoNewline zero = tt
replicate-NoNewline (suc n) = (omega arith, replicate-NoNewline n)

key_texts-NoNewline : (n : ℕ) → NoNewline (key_texts n)
key_texts-NoNewline zero = tt
key_texts-NoNewline (suc n) =
    append-NoNewline (replicate 63 97) (32 ∷ key_texts n) (replicate-NoNewline 63)
      (omega arith, key_texts-NoNewline n)

long_reply_sent : (handled [] (codes "LIST") lister).sent ≡ send_line long_reply ∷ []
unfolding handle_words dispatch handle_list decimal store_list scan_line skip_spaces take_word
    take_until_newline c_str strip_cr str_eq
long_reply_sent = refl

talk-long_example :
    (inbox : List Recv) × (talk (serve []) (codes "LIST") lister
      ≡ leave (
          print
            (codes "Connection error or server response too long.")
            (moved [] (codes "LIST") lister inbox)))
talk-long_example =
    talk-long [] (codes "LIST") lister refl refl refl (grind arith) (cc) (omega arith) long_reply
      long_reply_sent
      (append-NoNewline (codes "OK LIST 8 ") (take 511 (key_texts 9)) (grind arith)
        (take-NoNewline 511 (key_texts 9) (key_texts-NoNewline 9)))
      (omega arith)
