-- ===== src/Client/Typed/Answers.antt =====
-- The dialogue of one field returns what was typed.
use sc4051_distributed_banki.Base.{
  ℕ, ◌<◌, ◌^◌, ◌≡◌, refl, ◌∙◌, Bool, true, false, none, some, ap, [], ◌++◌, append-nil, lt→ltb,
  Bool-cases, inl, inr, arith,
}
use mathlib.Core.Path.{sym}
use sc4051_distributed_banki.Base.Chars.{drop_spaces, read_sign, read_digits}
use sc4051_distributed_banki.Base.Chars.Digits.{decimal_alone, read_digits-decimal}
use sc4051_distributed_banki.Base.Integers.{pos}
use sc4051_distributed_banki.Base.Text.{codes, decimal}
use sc4051_distributed_banki.Memory.{Bytes}
use sc4051_distributed_banki.Client.State.{value}
use sc4051_distributed_banki.Client.Text.{same_text, is_alpha, is_alpha_numeric}
use sc4051_distributed_banki.Client.Text.Lines.{
  IsAnswer, name-IsAnswer, alnum-IsAnswer, decimal-IsAnswer,
}
use sc4051_distributed_banki.Client.Number.{accepted, stoll, judge_uint32}
use sc4051_distributed_banki.Client.Input.{
  judge_text, is_password, get_validated_uint32, get_validated_string, get_validated_password,
}
use sc4051_distributed_banki.Client.Input.Asked.{IsName, IsPassword}
use sc4051_distributed_banki.Client.Typed.{Reads, Spells, ask-Reads}

abbrev pub is_quit : Bytes → Bool
is_quit text = same_text text (codes "quit")

stoll_reads :
    (s : Bytes) (n : ℕ)
    → drop_spaces s ≡ s
    → read_sign s ≡ (false, s)
    → read_digits none s ≡ some n
    → n < 2 ^ 63
    → stoll s ≡ value (pos n)
unfolding stoll
stoll_reads s n no_space no_sign number fits =
    rw (no_space, no_sign, number, lt→ltb n (2 ^ 63) fits) refl

-- `std::stoll` reads what `std::to_string` wrote.
stoll-decimal : (n : ℕ) → n < 2 ^ 63 → stoll (decimal n) ≡ value (pos n)
stoll-decimal n h =
    let (no_space, no_sign) = decimal_alone n [] (omega arith) in
    ap stoll (sym (append-nil (decimal n)))
    ∙ stoll_reads (decimal n ++ []) n no_space no_sign (read_digits-decimal n [] (omega arith)) h

judge_value :
    (prompt s : Bytes) (n : ℕ)
    → stoll s ≡ value (pos n)
    → n < 2 ^ 32
    → judge_uint32 prompt s ≡ accepted n
unfolding judge_uint32
judge_value prompt s n number fits = rw (number, lt→ltb n (2 ^ 32) fits) refl

-- A number that the program printed is accepted when it is typed back.
pub uint32-Reads :
    (prompt text : Bytes) (n : ℕ)
    → n < 2 ^ 32
    → Spells text (decimal n)
    → Reads (get_validated_uint32 prompt) n text
unfolding get_validated_uint32
uint32-Reads prompt text n fits spells =
    ask-Reads 4 prompt _ _ text (decimal n) n (decimal-IsAnswer n (omega arith)) spells
      (judge_value prompt (decimal n) n (stoll-decimal n (omega arith)) fits)

judge_passed :
    (test : Bytes → Bool) (prompt input : Bytes)
    → test input ≡ true
    → judge_text test prompt input ≡ accepted input
judge_passed test prompt input passed = rw passed refl

pub string-Reads :
    (prompt text name : Bytes)
    → IsName name
    → is_quit name ≡ false
    → Spells text name
    → Reads (get_validated_string prompt) name text
unfolding get_validated_string
string-Reads prompt text name h no_quit spells =
    ask-Reads 4 prompt _ _ text name name (name-IsAnswer name h no_quit) spells
      (judge_passed is_alpha prompt name h)

password_alnum : (pwd : Bytes) → IsPassword pwd → is_alpha_numeric pwd ≡ true
password_alnum pwd h = elim (Bool-cases (is_alpha_numeric pwd)) [
  | inl passed ↦ passed
  | inr failed ↦ let no : false ≡ true = rw failed at h in absurd cc
]

pub password-IsAnswer : (pwd : Bytes) → IsPassword pwd → is_quit pwd ≡ false → IsAnswer pwd
password-IsAnswer pwd h no_quit = alnum-IsAnswer pwd (password_alnum pwd h) no_quit

pub password-Reads :
    (prompt text pwd : Bytes)
    → IsPassword pwd
    → is_quit pwd ≡ false
    → Spells text pwd
    → Reads (get_validated_password prompt) pwd text
unfolding get_validated_password
password-Reads prompt text pwd h no_quit spells =
    ask-Reads 4 prompt _ _ text pwd pwd (password-IsAnswer pwd h no_quit) spells
      (judge_passed is_password prompt pwd h)
