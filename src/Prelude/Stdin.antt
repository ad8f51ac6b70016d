-- ===== src/Prelude/Stdin.antt =====
-- Reading standard input with the C library: `fgets`, and the removal of its newline, as task3's
-- main.c and task4's client.c write it.
use samuel_basnet_240512_st.Prelude.{
  ℕ, zero, suc, ◌≤◌, ◌<◌, Bytes, [], ◌∷◌, ◌++◌, ◌≡◌, ◌≢◌, refl, ap, ◌∙◌, arith, ◌==◌, if◌then◌else◌,
  All, length, take, drop, c_str,
}

-- `fgets(buf, n + 1, stdin)`: up to `n` bytes, the last of them the first newline, and the rest.
unfoldable pub fgets : ℕ → Bytes → Bytes × Bytes
fgets zero input = ([], input)
fgets (suc n) [] = ([], [])
fgets (suc n) (c ∷ cs) =
    let (line, rest) = fgets n cs in if c == 10 then (c ∷ [], cs) else (c ∷ line, rest)

-- `if (len > 0 && buf[len - 1] == '\n') buf[len - 1] = '\0'`
unfoldable pub strip_newline : Bytes → Bytes
strip_newline [] = []
strip_newline (c ∷ []) = if c == 10 then [] else c ∷ []
strip_newline (c ∷ d ∷ cs) = c ∷ strip_newline (d ∷ cs)

-- The string in the buffer. Where `fgets` reads nothing it returns NULL, and the string is empty.
abbrev pub line_of : Bytes → Bytes
line_of [] = []
line_of (c ∷ cs) = strip_newline (c_str (c ∷ cs))

-- No newline and no NUL.
abbrev pub IsPlain : Bytes → Type 0
IsPlain l = All (λ c. (c ≢ 10) × (c ≢ 0)) l

pub fgets-whole :
    (n : ℕ) (l rest : Bytes)
    → IsPlain l
    → length l < n
    → fgets n (l ++ 10 ∷ rest) ≡ (l ++ 10 ∷ [], rest)
unfolding fgets
fgets-whole zero l rest p lt = absurd (omega arith)
fgets-whole (suc n) [] rest p lt = refl
fgets-whole (suc n) (c ∷ l) rest p lt = ground (arith, fgets-whole n l rest p.1)

pub fgets-cut :
    (n : ℕ) (l rest : Bytes)
    → IsPlain l
    → n ≤ length l
    → fgets n (l ++ rest) ≡ (take n l, drop n l ++ rest)
unfolding fgets
fgets-cut zero l rest p le = refl
fgets-cut (suc n) [] rest p le = absurd (omega arith)
fgets-cut (suc n) (c ∷ l) rest p le = ground (arith, fgets-cut n l rest p.1)

c_str-line : (l : Bytes) → IsPlain l → c_str (l ++ 10 ∷ []) ≡ l ++ 10 ∷ []
unfolding c_str
c_str-line [] p = refl
c_str-line (c ∷ l) p = ground (arith, c_str-line l p.1)

c_str-IsPlain : (l : Bytes) → IsPlain l → c_str l ≡ l
unfolding c_str
c_str-IsPlain [] p = refl
c_str-IsPlain (c ∷ l) p = ground (arith, c_str-IsPlain l p.1)

strip-line : (l : Bytes) → strip_newline (l ++ 10 ∷ []) ≡ l
unfolding strip_newline
strip-line [] = refl
strip-line (c ∷ []) = refl
strip-line (c ∷ d ∷ l) = ap (◌∷◌ c) (strip-line (d ∷ l))

strip-IsPlain : (l : Bytes) → IsPlain l → strip_newline l ≡ l
unfolding strip_newline
strip-IsPlain [] p = refl
strip-IsPlain (c ∷ []) p = ground arith
strip-IsPlain (c ∷ d ∷ l) p = ap (◌∷◌ c) (strip-IsPlain (d ∷ l) p.1)

pub line_of-whole : (l : Bytes) → IsPlain l → line_of (l ++ 10 ∷ []) ≡ l
unfolding strip_newline c_str
line_of-whole [] p = refl
line_of-whole (c ∷ l) p = ap strip_newline (c_str-line (c ∷ l) p) ∙ strip-line (c ∷ l)

pub line_of-IsPlain : (l : Bytes) → IsPlain l → line_of l ≡ l
line_of-IsPlain [] p = refl
line_of-IsPlain (c ∷ l) p = ap strip_newline (c_str-IsPlain (c ∷ l) p) ∙ strip-IsPlain (c ∷ l) p

pub take-IsPlain : (n : ℕ) (l : Bytes) → IsPlain l → IsPlain (take n l)
take-IsPlain zero l p = tt
take-IsPlain (suc n) [] p = tt
take-IsPlain (suc n) (c ∷ l) p = (p.0, take-IsPlain n l p.1)

pub fgets-end : (n : ℕ) → fgets n [] ≡ ([], [])
unfolding fgets
fgets-end zero = refl
fgets-end (suc n) = refl

pub fgets-le : (n : ℕ) (input : Bytes) → length (fgets n input).1 ≤ length input
unfolding fgets
fgets-le zero input = omega arith
fgets-le (suc n) [] = omega arith
fgets-le (suc n) (c ∷ cs) = ground (arith, fgets-le n cs)

pub fgets-lt : (n : ℕ) (input : Bytes) → input ≢ [] → length (fgets (suc n) input).1 < length input
unfolding fgets
fgets-lt n [] h = absurd (h refl)
fgets-lt n (c ∷ cs) h = ground (arith, fgets-le n cs)
