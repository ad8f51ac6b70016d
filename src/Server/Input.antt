-- ===== src/Server/Input.antt =====
-- How task4_network_ipc/server.c reads a line and takes it apart: `recv_line`, the `sscanf` of
-- `handle_client`, `is_valid_token` and `send_line`.
pub mod Lines
pub mod Scan
use samuel_basnet_240512_st.Prelude.{
  ℕ, zero, suc, ◌+◌, ◌-◌, ◌%◌, Bytes, codes, Bool, true, false, ◌&&◌, ◌||◌, Option, none, some,
  List, [], ◌∷◌, ◌++◌, ltb, leb, ◌==◌, if◌then◌else◌, length, take, c_str,
}
use samuel_basnet_240512_st.Prelude.Int.{ℤ, pos, negsuc}

abbrev pub max_line : ℕ
max_line = 512

-- What one call of `recv(sock, &c, 1, 0)` gives: a byte, 0 or a negative number. A peer that sends
-- no more and keeps the connection open is the end of the list.
pub data Recv : Type 0 where
  byte : ℕ → Recv
  closed failed : Recv

-- The return value, the buffer up to the NUL that was written (empty where none was), and what is
-- left on the socket.
pub record Received : Type 0 where
  pub ret : ℤ
  pub line : Bytes
  pub rest : List Recv

-- `out_line[pos] = '\0'`, and the same at `pos - 1` if a carriage return stands there.
unfoldable pub strip_cr : Bytes → Bytes
strip_cr [] = []
strip_cr (c ∷ []) = if c == 13 then [] else c ∷ []
strip_cr (c ∷ d ∷ cs) = c ∷ strip_cr (d ∷ cs)

-- The loop with `left` rounds to go, `line` being `out_line[0..pos)`. `none`: `recv` blocks.
recv_loop : ℕ → Bytes → List Recv → Option Received
recv_loop zero line input = some (record { ret = negsuc 0; line = []; rest = input })
recv_loop (suc left) line [] = none
recv_loop (suc left) line (Recv.closed ∷ input) =
    some (record { ret = pos 0; line = []; rest = input })
recv_loop (suc left) line (Recv.failed ∷ input) =
    some (record { ret = negsuc 0; line = []; rest = input })
recv_loop (suc left) line (Recv.byte c ∷ input) =
    let more = recv_loop left (line ++ c ∷ []) input in
    let done : Received = record { ret = pos (length line); line = strip_cr line; rest = input } in
    if c == 10 then some done else more

unfoldable pub recv_line : ℕ → List Recv → Option Received
unfolding recv_loop strip_cr
recv_line max_len input = recv_loop (max_len - 1) [] input

-- isspace in the C locale
abbrev pub is_space : ℕ → Bool
is_space c = c == 32 || leb 9 c && leb c 13

unfoldable pub skip_spaces : Bytes → Bytes
skip_spaces [] = []
skip_spaces (c ∷ cs) = if is_space c then skip_spaces cs else c ∷ cs

-- `%<n>s` behind the white space: at most `n` bytes that are no white space, and the rest.
unfoldable pub take_word : ℕ → Bytes → Bytes × Bytes
take_word zero cs = ([], cs)
take_word (suc n) [] = ([], [])
take_word (suc n) (c ∷ cs) =
    let (w, rest) = take_word n cs in if is_space c then ([], c ∷ cs) else (c ∷ w, rest)

-- `%<n>[^\n]`: at most `n` bytes that are no newline.
unfoldable pub take_until_newline : ℕ → Bytes → Bytes
take_until_newline zero cs = []
take_until_newline (suc n) [] = []
take_until_newline (suc n) (c ∷ cs) =
    let rest = take_until_newline n cs in if c == 10 then [] else c ∷ rest

pub record Words : Type 0 where
  pub cmd : Bytes
  pub arg1 : Bytes
  pub arg2 : Bytes

-- `sscanf(line, "%63s %63s %399[^\n]", cmd, arg1, arg2)` with the three arrays empty before: a
-- conversion that matches nothing ends the scan and leaves its array as it was, and then nothing
-- is left for the later ones to match either.
unfoldable pub scan_line : Bytes → Words
scan_line line =
    let (cmd, rest) = take_word 63 (skip_spaces (c_str line)) in
    let (arg1, rest') = take_word 63 (skip_spaces rest) in
    record { cmd = cmd; arg1 = arg1; arg2 = take_until_newline 399 (skip_spaces rest') }

all_printable : Bytes → Bool
all_printable [] = true
all_printable (c ∷ cs) = if ltb c 32 || c == 127 then false else all_printable cs

unfoldable pub is_valid_token : Bytes → ℕ → Bool
unfolding all_printable
is_valid_token s max_len =
    if length s == 0 || ltb max_len (length s) then false else all_printable s

-- The bytes that `send_line` hands to `send`: `snprintf` into a buffer of `MAX_LINE + 2` bytes.
unfoldable pub send_line : Bytes → Bytes
send_line msg = take (max_line + 1) (msg ++ codes "\n")
