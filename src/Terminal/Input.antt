-- ===== src/Terminal/Input.antt =====
-- client/src/core/bankIO.cpp: what `BankIO` takes from the terminal. The state of std::cin is the
-- bytes that it is going to deliver; behind them it is at its end. The code clears the stream's flags
-- after a call that failed, so that they decide nothing later.
pub mod Typed
pub mod Shrinks
use sc4051_distributed_banki.Base.{
  ℕ, ◌-◌, ◌%◌, ◌^◌, Bool, true, false, Option, none, some, [], ◌∷◌, ltb, leb, ◌==◌, drop,
  if◌then◌else◌,
}
use sc4051_distributed_banki.Base.Chars.{drop_spaces, read_sign, read_digits, drop_digits}
use sc4051_distributed_banki.Memory.{Bytes}

abbrev pub newline : ℕ
newline = 10

-- `if (std::cin.peek() == '\n') std::cin.ignore();`
unfoldable pub ensure_clean_buffer : Bytes → Bytes
ensure_clean_buffer [] = []
ensure_clean_buffer (c ∷ s) = if c == newline then s else c ∷ s

-- `std::getline`: the line and what is behind its newline.
abbrev pub getline : Bytes → Bytes × Bytes
getline [] = ([], [])
getline (c ∷ s) = let (line, rest) = getline s in if c == newline then ([], s) else (c ∷ line, rest)

-- `std::cin.ignore(std::numeric_limits<std::streamsize>::max(), '\n')`
abbrev pub ignore_line : Bytes → Bytes
ignore_line [] = []
ignore_line (c ∷ s) = let rest = ignore_line s in if c == newline then s else rest

unfoldable pub read_line : Bytes → Bytes × Bytes
unfolding ensure_clean_buffer
read_line s = getline (ensure_clean_buffer s)

-- What `std::cin >> input` stores in an `int`, as its 32 bits, and whether it fails: 0 without a digit,
-- the nearest `int` for a number that is none.
pub data Extracted : Type 0 where
  extracted : ℕ → Extracted
  refused : ℕ → Extracted

abbrev pub to_int : Bool → Option ℕ → Extracted
to_int negative none = refused 0
to_int true (some n) =
    if leb n (2 ^ 31) then extracted ((2 ^ 32 - n) % 2 ^ 32) else refused (2 ^ 31)
to_int false (some n) = if ltb n (2 ^ 31) then extracted n else refused (2 ^ 31 - 1)

-- `if (!(std::cin >> input)) { std::cin.clear(); std::cin.ignore(...); }`
abbrev pub after_int : Extracted → Bytes → ℕ × Bytes
after_int (extracted v) digits = (v, drop_digits digits)
after_int (refused v) digits = (v, ignore_line digits)

unfoldable pub read_int : Bytes → ℕ × Bytes
read_int s =
    let (negative, digits) = read_sign (drop_spaces s) in
    after_int (to_int negative (read_digits none digits)) digits

-- `ignore` up to the end of the line, and `get` one character more.
unfoldable pub wait_for_enter : Bytes → Bytes
wait_for_enter s = drop 1 (ignore_line s)
