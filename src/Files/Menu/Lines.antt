-- ===== src/Files/Menu/Lines.antt =====
-- What `read_line` of main.c makes of the lines on standard input.
use samuel_basnet_240512_st.Prelude.{
  ℕ, ◌+◌, ◌-◌, ◌≤◌, ◌<◌, Bytes, [], ◌∷◌, ◌++◌, ◌≡◌, ◌≢◌, refl, ap, arith, leb, if◌then◌else◌,
  length, take, drop, inl, inr, Bool-cases,
}
unfoldable pub use samuel_basnet_240512_st.Prelude.Stdin.{IsPlain}
use samuel_basnet_240512_st.Prelude.Stdin.{
  fgets-whole, fgets-cut, fgets-end, fgets-le, fgets-lt, line_of-whole, line_of-IsPlain,
  take-IsPlain,
}
use samuel_basnet_240512_st.Files.Menu.{read_line}

pub read_line-whole :
    (size : ℕ) (l rest : Bytes)
    → IsPlain l
    → length l + 1 < size
    → read_line size (l ++ 10 ∷ rest) ≡ (l, rest)
unfolding read_line
read_line-whole size l rest p lt =
    rw (fgets-whole (size - 1) l rest p (omega arith))
      (ap (λ (b : Bytes). (b, rest)) (line_of-whole l p))

pub read_line-cut :
    (size : ℕ) (l rest : Bytes)
    → IsPlain l
    → size ≤ length l + 1
    → read_line size (l ++ 10 ∷ rest) ≡ (take (size - 1) l, drop (size - 1) l ++ 10 ∷ rest)
unfolding read_line
read_line-cut size l rest p le = rw (fgets-cut (size - 1) l (10 ∷ rest) p (omega arith)) (
    ap (λ (b : Bytes). (b, drop (size - 1) l ++ 10 ∷ rest))
      (line_of-IsPlain (take (size - 1) l) (take-IsPlain (size - 1) l p)))

-- A line without NUL bytes that is at least two bytes shorter than the buffer is read whole, with
-- its newline. Of a longer one the buffer takes all bytes but one for the NUL, and the rest, be it
-- only the newline, is left on the input as the next line.
pub read_line_lem :
    (size : ℕ) (l rest : Bytes)
    → IsPlain l
    → read_line size (l ++ 10 ∷ rest) ≡ (
        if leb (length l + 2) size
        then (l, rest)
        else (take (size - 1) l, drop (size - 1) l ++ 10 ∷ rest))
read_line_lem size l rest p = elim (Bool-cases (leb (length l + 2) size)) [
  | inl fits ↦ rw fits (read_line-whole size l rest p (ground arith))
  | inr long ↦ rw long (read_line-cut size l rest p (ground arith))
]

-- At the end of the input every line is empty.
pub read_line-end : (size : ℕ) → read_line size [] ≡ ([], [])
unfolding read_line
read_line-end size = rw (fgets-end (size - 1)) refl

pub read_line-le : (size : ℕ) (input : Bytes) → length (read_line size input).1 ≤ length input
unfolding read_line
read_line-le size input = fgets-le (size - 1) input

-- A line takes something off an input that has not ended.
pub choice-lt : (input : Bytes) → input ≢ [] → length (read_line 8 input).1 < length input
unfolding read_line
choice-lt input h = fgets-lt 6 input h
