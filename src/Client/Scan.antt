-- ===== src/Client/Scan.antt =====
-- A command line of two words, as the user types it at client.c, in the `sscanf` of server.c, and
-- the carriage return at the end of a line.
use mathlib.Core.List.{append-nil}
use samuel_basnet_240512_st.Prelude.{
  ℕ, zero, suc, ◌≤◌, Bytes, [], ◌∷◌, ◌++◌, ◌≡◌, refl, ◌≢◌, length, arith, c_str, ap, sym, ◌∙◌,
}
use samuel_basnet_240512_st.Server.Input.{
  skip_spaces, take_word, take_until_newline, scan_line, strip_cr,
}
use samuel_basnet_240512_st.Server.Input.Scan.{
  IsWord, c_str-word, c_str-space, skip-Starts, skip-space, take_word-whole, word-Starts,
}

take_word-end : (n : ℕ) (w : Bytes) → IsWord w → length w ≤ n → take_word n w ≡ (w, [])
unfolding take_word
take_word-end zero [] h le = refl
take_word-end (suc n) [] h le = refl
take_word-end zero (c ∷ w) h le = absurd (omega arith)
take_word-end (suc n) (c ∷ w) h le = rw (take_word-end n w h.1 (omega arith), h.0.0) refl

-- `<cmd> <key>` is taken apart into the two words, with an empty value.
pub scan_line-two :
    (cmd key : Bytes)
    → IsWord cmd
    → IsWord key
    → cmd ≢ []
    → key ≢ []
    → length cmd ≤ 63
    → length key ≤ 63
    → scan_line (cmd ++ 32 ∷ key) ≡ record { cmd = cmd; arg1 = key; arg2 = [] }
unfolding scan_line skip_spaces take_until_newline c_str
scan_line-two cmd key wc wk nc nk lc lk =
    rw
      (
        whole,
        skip-Starts cmd (32 ∷ key) (word-Starts cmd wc nc),
        take_word-whole 63 cmd key wc lc,
        skip-space key,
        skip-key,
        take_word-end 63 key wk lk,
      )
      refl
  where
    c_str-key : c_str key ≡ key
    c_str-key = ap c_str (sym (append-nil key)) ∙ (c_str-word key [] wk ∙ append-nil key)

    whole : c_str (cmd ++ 32 ∷ key) ≡ cmd ++ 32 ∷ key
    whole =
        c_str-word cmd (32 ∷ key) wc
        ∙ ap (λ (t : Bytes). cmd ++ t) (c_str-space key ∙ ap (λ (t : Bytes). 32 ∷ t) c_str-key)

    skip-key : skip_spaces key ≡ key
    skip-key = rw (← append-nil key) (skip-Starts key [] (word-Starts key wk nk))

pub strip_cr-append : (a b : Bytes) → b ≢ [] → strip_cr (a ++ b) ≡ a ++ strip_cr b
unfolding strip_cr
strip_cr-append [] b ne = refl
strip_cr-append (x ∷ []) [] ne = absurd (ne refl)
strip_cr-append (x ∷ []) (y ∷ b) ne = refl
strip_cr-append (x ∷ y ∷ a) b ne = ap (◌∷◌ x) (strip_cr-append (y ∷ a) b ne)

pub strip_cr-word : (w : Bytes) → IsWord w → strip_cr w ≡ w
unfolding strip_cr
strip_cr-word [] h = refl
strip_cr-word (x ∷ []) h = ground arith
strip_cr-word (x ∷ y ∷ w) h = ap (◌∷◌ x) (strip_cr-word (y ∷ w) h.1)
