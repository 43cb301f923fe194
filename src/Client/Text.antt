-- ===== src/Client/Text.antt =====
-- The text helpers of `BankClient`, over the "C" locale's <cctype>.
pub mod Lines
use sc4051_distributed_banki.Base.{
  ℕ, ◌-◌, Bool, true, false, ◌&&◌, ◌||◌, [], ◌∷◌, length, leb, ltb, ◌==◌, if◌then◌else◌,
}
use sc4051_distributed_banki.Memory.{Bytes}
pub use sc4051_distributed_banki.Base.Chars.{is_space, is_upper, is_lower, is_digit, drop_spaces}
use mathlib.Core.List.{reverse, map}

abbrev pub is_alpha_char : ℕ → Bool
is_alpha_char c = is_upper c || is_lower c

abbrev pub is_alnum_char : ℕ → Bool
is_alnum_char c = is_alpha_char c || is_digit c

-- toupper of a char, given what it makes of a negative one.
abbrev pub to_upper : (ℕ → ℕ) → ℕ → ℕ
to_upper negative c = if ltb c 128 then (if is_lower c then c - 32 else c) else negative c

abbrev pub all_of : (ℕ → Bool) → Bytes → Bool
all_of p [] = true
all_of p (c ∷ s) = p c && all_of p s

-- The second `erase` does the same from the other end.
unfoldable pub trim_string : Bytes → Bytes
trim_string str = reverse (drop_spaces (reverse (drop_spaces str)))

unfoldable pub is_alpha : Bytes → Bool
is_alpha [] = false
is_alpha (c ∷ s) = all_of is_alpha_char (c ∷ s)

unfoldable pub is_alpha_numeric : Bytes → Bool
is_alpha_numeric [] = false
is_alpha_numeric (c ∷ s) = all_of is_alnum_char (c ∷ s)

abbrev pub max_pw_len : ℕ
max_pw_len = 8

unfoldable pub is_within_max_length : Bytes → Bool
is_within_max_length [] = false
is_within_max_length (c ∷ s) = leb (length (c ∷ s)) max_pw_len

-- `std::string::operator==`
abbrev pub same_text : Bytes → Bytes → Bool
same_text [] [] = true
same_text [] (d ∷ t) = false
same_text (c ∷ s) [] = false
same_text (c ∷ s) (d ∷ t) = c == d && same_text s t

-- `for (auto &c : input) c = toupper(c);`
abbrev pub upper_case : (ℕ → ℕ) → Bytes → Bytes
upper_case negative = map (to_upper negative)
