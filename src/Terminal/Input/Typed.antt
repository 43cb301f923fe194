-- ===== src/Terminal/Input/Typed.antt =====
-- What `read_int`, `read_line` and `wait_for_enter` make of the lines that a user types.
use sc4051_distributed_banki.Base.{
  ℕ, zero, suc, ◌+◌, ◌<◌, ◌^◌, ◌≡◌, refl, ap, ◌∙◌, false, List, [], ◌∷◌, ◌++◌, append_assoc, length,
  All, lt→ltb, ◌==◌, arith,
}
use sc4051_distributed_banki.Base.Text.{decimal}
use sc4051_distributed_banki.Base.Chars.Digits.{
  decimal_alone, read_digits-decimal, drop_digits-decimal,
}
use sc4051_distributed_banki.Memory.{Bytes}
use sc4051_distributed_banki.Terminal.Input.{
  newline, ensure_clean_buffer, getline, ignore_line, read_line, read_int, wait_for_enter,
}

abbrev pub IsText : Bytes → Type 0
IsText text = All (λ c. (c == newline) ≡ false) text

-- A line that is not empty.
abbrev pub IsLine : Bytes → Type 0
IsLine [] = ⊥
IsLine (c ∷ text) = IsText (c ∷ text)

abbrev pub typed : List Bytes → Bytes
typed [] = []
typed (line ∷ lines) = line ++ newline ∷ typed lines

-- As many calls of `read_line`.
abbrev pub read_lines : ℕ → Bytes → List Bytes × Bytes
read_lines zero s = ([], s)
read_lines (suc n) s =
    let (line, s1) = read_line s in let (lines, s2) = read_lines n s1 in (line ∷ lines, s2)

getline-line : (text rest : Bytes) → IsText text → getline (text ++ newline ∷ rest) ≡ (text, rest)
getline-line [] rest h = refl
getline-line (c ∷ text) rest h = rw (h.0, getline-line text rest h.1) refl

ignore_line-line : (text rest : Bytes) → IsText text → ignore_line (text ++ newline ∷ rest) ≡ rest
ignore_line-line [] rest h = refl
ignore_line-line (c ∷ text) rest h = rw h.0 (ignore_line-line text rest h.1)

-- The newline that a call of `read_int` left is dropped.
read_line_left : (s : Bytes) → read_line (newline ∷ s) ≡ getline s
unfolding read_line ensure_clean_buffer
read_line_left s = refl

pub read_line-line :
    (line rest : Bytes) → IsLine line → read_line (line ++ newline ∷ rest) ≡ (line, rest)
unfolding read_line ensure_clean_buffer
read_line-line [] rest h = elim h [ ]
read_line-line (c ∷ text) rest h = rw (h.0, getline-line text rest h.1, h.0) refl

-- Behind a newline that was left the line is the same.
pub read_line-left :
    (line rest : Bytes)
    → IsLine line
    → read_line (newline ∷ (line ++ newline ∷ rest)) ≡ (line, rest)
read_line-left [] rest h = elim h [ ]
read_line-left (c ∷ text) rest h =
    read_line_left ((c ∷ text) ++ newline ∷ rest) ∙ getline-line (c ∷ text) rest h

read_lines-typed :
    (lines : List Bytes) (rest : Bytes)
    → All IsLine lines
    → read_lines (length lines) (typed lines ++ rest) ≡ (lines, rest)
read_lines-typed [] rest h = refl
read_lines-typed (line ∷ lines) rest h =
    rw
      (
        append_assoc line (newline ∷ typed lines) rest,
        read_line-line line (typed lines ++ rest) h.0,
        read_lines-typed lines rest h.1,
      )
      refl

-- A number that fits an `int` is read up to its newline.
pub read_int-decimal :
    (n : ℕ) (s : Bytes) → n < 2 ^ 31 → read_int (decimal n ++ newline ∷ s) ≡ (n, newline ∷ s)
unfolding read_int
read_int-decimal n s h =
    let (no_space, no_sign) = decimal_alone n (newline ∷ s) (omega arith) in
    rw
      (
        no_space,
        no_sign,
        read_digits-decimal n (newline ∷ s) (omega arith),
        lt→ltb n (2 ^ 31) h,
        drop_digits-decimal n (newline ∷ s) (omega arith),
      )
      refl

typed_append :
    (line : Bytes) (lines : List Bytes) (rest : Bytes)
    → typed (line ∷ lines) ++ rest ≡ line ++ newline ∷ (typed lines ++ rest)
typed_append line lines rest = append_assoc line (newline ∷ typed lines) rest

behind_int :
    (n : ℕ) (line s : Bytes)
    → IsText line
    → let (lines, rest) = read_lines n s in
      read_lines (suc n) (newline ∷ (line ++ newline ∷ s)) ≡ (line ∷ lines, rest)
behind_int n line s h = rw (read_line_left (line ++ newline ∷ s), getline-line line s h) refl

first_line :
    (line : Bytes) (lines : List Bytes) (rest : Bytes)
    → IsText line
    → All IsLine lines
    → read_lines (suc (length lines)) (newline ∷ (typed (line ∷ lines) ++ rest))
      ≡ (line ∷ lines, rest)
first_line line lines rest h hs =
    ap (λ s. read_lines (suc (length lines)) (newline ∷ s)) (typed_append line lines rest)
    ∙ behind_int (length lines) line (typed lines ++ rest) h
    ∙ ap (λ (x : List Bytes × Bytes). (line ∷ x.0, x.1)) (read_lines-typed lines rest hs)

-- A user who types a number below 2^31 and then lines gets both through: `read_int` returns the number,
-- the calls of `read_line` behind it return the lines, and what was typed behind them is left. The
-- lines behind the first one must not be empty.
pub read_int-read_lines :
    (n : ℕ) (line : Bytes) (lines : List Bytes) (rest : Bytes)
    → n < 2 ^ 31
    → IsText line
    → All IsLine lines
    → let (m, behind) = read_int (decimal n ++ newline ∷ (typed (line ∷ lines) ++ rest)) in
      (m ≡ n) × (read_lines (suc (length lines)) behind ≡ (line ∷ lines, rest))
read_int-read_lines n line lines rest fits h hs =
    rw (read_int-decimal n (typed (line ∷ lines) ++ rest) fits)
      (refl, first_line line lines rest h hs)

digit_only : (d : ℕ) → d < 10 → decimal d ≡ (48 + d) ∷ []
digit_only d h = rw (lt→ltb d 10 h) refl

digit_lost :
    (d : ℕ) (rest : Bytes)
    → d < 10
    → read_int (wait_for_enter (newline ∷ (decimal d ++ newline ∷ rest))) ≡ read_int rest
unfolding wait_for_enter read_int
digit_lost d rest h = rw (digit_only d h) refl

digit_kept :
    (d : ℕ) (rest : Bytes)
    → d < 10
    → read_int (wait_for_enter (newline ∷ newline ∷ (decimal d ++ newline ∷ rest)))
      ≡ (d, newline ∷ rest)
unfolding wait_for_enter
digit_kept d rest h = read_int-decimal d rest (omega arith)

-- `wait_for_enter` needs two newlines. Behind a dialogue, when the user answers it with one and then
-- types the number of a service, the number is lost: `read_int` goes on with the next line.
-- With a second newline it returns the number.
pub wait_for_enter-read_int :
    (d : ℕ) (rest : Bytes)
    → d < 10
    → (read_int (wait_for_enter (newline ∷ (decimal d ++ newline ∷ rest))) ≡ read_int rest)
      × (read_int (wait_for_enter (newline ∷ newline ∷ (decimal d ++ newline ∷ rest)))
          ≡ (d, newline ∷ rest))
wait_for_enter-read_int d rest h = (digit_lost d rest h, digit_kept d rest h)
