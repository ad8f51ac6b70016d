-- ===== src/Server/Input/Scan.antt =====
-- What the `sscanf` of `handle_client` makes of a line.
use mathlib.Core.List.{append-nil}
use samuel_basnet_240512_st.Prelude.{
  ℕ, zero, suc, ◌≤◌, Bytes, false, [], ◌∷◌, ◌++◌, ◌≡◌, refl, ◌≢◌, length, All, arith, c_str, ap,
  ◌∙◌,
}
use samuel_basnet_240512_st.Server.Input.{
  is_space, skip_spaces, take_word, take_until_newline, scan_line,
}

length-take_word : (n : ℕ) (cs : Bytes) → length (take_word n cs).0 ≤ n
unfolding take_word
length-take_word zero cs = omega arith
length-take_word (suc n) [] = omega arith
length-take_word (suc n) (c ∷ cs) = ground (arith, length-take_word n cs)

length-take_until : (n : ℕ) (cs : Bytes) → length (take_until_newline n cs) ≤ n
unfolding take_until_newline
length-take_until zero cs = omega arith
length-take_until (suc n) [] = omega arith
length-take_until (suc n) (c ∷ cs) = ground (arith, length-take_until n cs)

-- The scanned words never overrun the arrays `cmd`, `arg1` and `arg2`.
pub scan_line-bounds :
    (line : Bytes)
    → let w = scan_line line in (length w.cmd ≤ 63) × (length w.arg1 ≤ 63) × (length w.arg2 ≤ 399)
unfolding scan_line
scan_line-bounds line =
    let rest = (take_word 63 (skip_spaces (c_str line))).1 in
    (
      length-take_word 63 (skip_spaces (c_str line)),
      length-take_word 63 (skip_spaces rest),
      length-take_until 399 (skip_spaces (take_word 63 (skip_spaces rest)).1),
    )

-- Bytes of a word: no NUL and no white space.
abbrev pub IsWord : Bytes → Type 0
IsWord b = All (λ c. (is_space c ≡ false) × (c ≢ 0)) b

-- Bytes of a value: no NUL and no newline.
abbrev pub IsText : Bytes → Type 0
IsText b = All (λ c. (c ≢ 10) × (c ≢ 0)) b

-- A text that does not begin with white space.
abbrev pub Starts : Bytes → Type 0
Starts [] = ⊥
Starts (c ∷ cs) = is_space c ≡ false

pub c_str-word : (w rest : Bytes) → IsWord w → c_str (w ++ rest) ≡ w ++ c_str rest
unfolding c_str
c_str-word [] rest h = refl
c_str-word (c ∷ w) rest h = ground (arith, c_str-word w rest)

pub c_str-text : (t : Bytes) → IsText t → c_str t ≡ t
unfolding c_str
c_str-text [] h = refl
c_str-text (c ∷ t) h = ground (arith, c_str-text t)

pub c_str-space : (t : Bytes) → c_str (32 ∷ t) ≡ 32 ∷ c_str t
unfolding c_str
c_str-space t = refl

pub skip-space : (t : Bytes) → skip_spaces (32 ∷ t) ≡ skip_spaces t
unfolding skip_spaces
skip-space t = refl

pub skip-Starts : (t rest : Bytes) → Starts t → skip_spaces (t ++ rest) ≡ t ++ rest
unfolding skip_spaces
skip-Starts [] rest h = absurd h
skip-Starts (c ∷ t) rest h = rw h

pub word-Starts : (w : Bytes) → IsWord w → w ≢ [] → Starts w
word-Starts [] h ne = absurd (ne refl)
word-Starts (c ∷ w) h ne = h.0.0

pub take_word-whole :
    (n : ℕ) (w rest : Bytes)
    → IsWord w
    → length w ≤ n
    → take_word n (w ++ 32 ∷ rest) ≡ (w, 32 ∷ rest)
unfolding take_word
take_word-whole zero [] rest h le = refl
take_word-whole (suc n) [] rest h le = refl
take_word-whole zero (c ∷ w) rest h le = absurd (omega arith)
take_word-whole (suc n) (c ∷ w) rest h le = rw (take_word-whole n w rest h.1 (omega arith), h.0.0)

take_until-whole : (n : ℕ) (t : Bytes) → IsText t → length t ≤ n → take_until_newline n t ≡ t
unfolding take_until_newline
take_until-whole zero [] h le = refl
take_until-whole (suc n) [] h le = refl
take_until-whole zero (c ∷ t) h le = absurd (omega arith)
take_until-whole (suc n) (c ∷ t) h le = ground (arith, take_until-whole n t)

-- `<cmd> <key> <value>`, as the client sends it, is taken apart into the same three strings: for a
-- command and a key of at most 63 bytes without white space, neither empty, and a value of at most
-- 399 bytes without a newline that does not begin with white space.
pub scan_line-format :
    (cmd key value : Bytes)
    → IsWord cmd
    → IsWord key
    → IsText value
    → cmd ≢ []
    → key ≢ []
    → Starts value
    → length cmd ≤ 63
    → length key ≤ 63
    → length value ≤ 399
    → scan_line (cmd ++ 32 ∷ (key ++ 32 ∷ value)) ≡ record { cmd = cmd; arg1 = key; arg2 = value }
unfolding scan_line
scan_line-format cmd key value wc wk tv nc nk sv lc lk lv =
    rw
      (
        whole,
        skip-Starts cmd (32 ∷ (key ++ 32 ∷ value)) (word-Starts cmd wc nc),
        take_word-whole 63 cmd (key ++ 32 ∷ value) wc lc,
        skip-space (key ++ 32 ∷ value),
        skip-Starts key (32 ∷ value) (word-Starts key wk nk),
        take_word-whole 63 key value wk lk,
        skip-space value,
        skip-value,
        take_until-whole 399 value tv lv,
      )
      refl
  where
    whole : c_str (cmd ++ 32 ∷ (key ++ 32 ∷ value)) ≡ cmd ++ 32 ∷ (key ++ 32 ∷ value)
    whole =
        c_str-word cmd (32 ∷ (key ++ 32 ∷ value)) wc
        ∙ ap (λ (t : Bytes). cmd ++ t)
            (c_str-space (key ++ 32 ∷ value)
              ∙ ap (λ (t : Bytes). 32 ∷ t)
                  (c_str-word key (32 ∷ value) wk
                    ∙ ap (λ (t : Bytes). key ++ t)
                        (c_str-space value ∙ ap (λ (t : Bytes). 32 ∷ t) (c_str-text value tv))))

    skip-value : skip_spaces value ≡ value
    skip-value = rw (← append-nil value) (skip-Starts value [] sv)
