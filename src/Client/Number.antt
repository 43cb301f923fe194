-- ===== src/Client/Number.antt =====
-- `std::stoll` in base 10, and how `getValidatedNumber` judges a line with it.
use sc4051_distributed_banki.Base.{
  ℕ, ◌^◌, Bool, true, false, Option, none, some, ◌++◌, ltb, leb, if◌then◌else◌,
}
use sc4051_distributed_banki.Base.Integers.{ℤ, pos, negsuc, negate}
use sc4051_distributed_banki.Base.Text.{codes}
use sc4051_distributed_banki.Memory.{Bytes}
use sc4051_distributed_banki.Client.State.{
  Output, print_error, Parsed, value, invalid_argument, out_of_range,
}
use sc4051_distributed_banki.Base.Chars.{drop_spaces, read_sign, read_digits}

abbrev pub signed_value : Bool → Option ℕ → Parsed ℤ
signed_value negative none = invalid_argument
signed_value true (some n) = if leb n (2 ^ 63) then value (negate n) else out_of_range
signed_value false (some n) = if ltb n (2 ^ 63) then value (pos n) else out_of_range

unfoldable pub stoll : Bytes → Parsed ℤ
stoll str =
    let (negative, digits) = read_sign (drop_spaces str) in
    signed_value negative (read_digits none digits)

-- What a line of input comes to: a value, or a message and another try.
pub data Judged (A : Type 0) : Type 0 where
  accepted : A → Judged A
  refused : Output → Judged A

abbrev pub not_a_number : Bytes → Output
not_a_number prompt =
    print_error (codes "Invalid " ++ prompt ++ codes " input. Please enter a number")

abbrev pub not_in_range : Bytes → Output
not_in_range prompt =
    print_error (codes "Invalid " ++ prompt ++ codes " input. Number out of range.")

-- `if (value < min || value > max) throw std::out_of_range(...)` at `uint32_t`
abbrev pub cast_uint32 : Bytes → Parsed ℤ → Judged ℕ
cast_uint32 prompt (value (pos n)) =
    if ltb n (2 ^ 32) then accepted n else refused (not_in_range prompt)
cast_uint32 prompt (value (negsuc n)) = refused (not_in_range prompt)
cast_uint32 prompt invalid_argument = refused (not_a_number prompt)
cast_uint32 prompt out_of_range = refused (not_in_range prompt)

-- `getValidatedNumber<uint32_t>`
unfoldable pub judge_uint32 : Bytes → Bytes → Judged ℕ
judge_uint32 prompt input = cast_uint32 prompt (stoll input)

abbrev pub cast_double : Bytes → Parsed ℕ → Judged ℕ
cast_double prompt (value v) = accepted v
cast_double prompt invalid_argument = refused (not_a_number prompt)
cast_double prompt out_of_range = refused (not_in_range prompt)

-- `getValidatedNumber<double>`, on what `std::stod` returns.
unfoldable pub judge_double : (Bytes → Parsed ℕ) → Bytes → Bytes → Judged ℕ
judge_double stod prompt input = cast_double prompt (stod input)
