-- ===== src/Client/Typed/Account.antt =====
-- A request about an account, typed line by line.
use sc4051_distributed_banki.Base.{
  ℕ, ◌<◌, ◌≤◌, ◌%◌, ◌^◌, ◌==◌, append_assoc, ◌≡◌, refl, ◌∙◌, ◌⊎◌, inl, inr, false, some, ◌∷◌, ◌++◌,
  arith,
}
use sc4051_distributed_banki.Base.Outcome.{ok}
use sc4051_distributed_banki.Base.Text.{decimal}
use sc4051_distributed_banki.Memory.{Bytes}
use sc4051_distributed_banki.Protocol.{Command, empty_command}
use sc4051_distributed_banki.Protocol.Service
use sc4051_distributed_banki.Terminal.Input.{newline}
use sc4051_distributed_banki.Terminal.Input.Typed.{read_int-decimal}
use sc4051_distributed_banki.Client.State.{
  Client, Io, Services, print_box_bottom, ◌>>◌, say, pure, read_int,
}
use sc4051_distributed_banki.Client.Input.Asked.{IsName, IsPassword}
use sc4051_distributed_banki.Client.Commands.{
  fill_auth_details, in_box, fill_service, build_command,
}
use sc4051_distributed_banki.Client.Text.Lines.{name-IsAnswer, decimal-IsAnswer}
use sc4051_distributed_banki.Client.Typed.{
  Reads, pure-Reads, bind-Reads, finish-Reads, line_of, line_of-Spells, left-Spells,
}
use sc4051_distributed_banki.Client.Typed.Answers.{
  is_quit, string-Reads, uint32-Reads, password-Reads, password-IsAnswer,
}

-- The holder, the number and the password of an account; a line that is just "quit" is none of them.
pub record IsAccount (name : Bytes) (num : ℕ) (pwd : Bytes) : Type 0 where
  pub is_name : IsName name
  pub name_no_quit : is_quit name ≡ false
  pub fits : num < 2 ^ 32
  pub is_password : IsPassword pwd
  pub password_no_quit : is_quit pwd ≡ false

-- The lines of the three answers.
abbrev pub account_lines : Bytes → ℕ → Bytes → Bytes
account_lines name num pwd = line_of name ++ (line_of (decimal num) ++ line_of pwd)

abbrev pub account_command : Command → Bytes → ℕ → Bytes → Command
account_command req name num pwd = record req {
  account_owner_name = some name;
  account_number = some num;
  account_password = some pwd;
}

abbrev pub asked : ℕ → Command
asked n = record empty_command { service = some n }

pub boxed-Reads :
    (s : Services) (n : ℕ) (fill : Io Command) (cmd : Command) (text : Bytes)
    → Reads fill cmd text
    → Reads (in_box s n fill) cmd text
boxed-Reads s n fill cmd text h c rest e =
    finish-Reads fill cmd (λ filled. say print_box_bottom >> pure filled) cmd text h
      (λ c' rest' e'. (refl, e')) (record c { screen = _ ∷ _ ∷ c.screen }) rest e

module _ (s : Services) (name : Bytes) (num : ℕ) (pwd : Bytes) (h : IsAccount name num pwd) where
  pub fill_auth-Reads :
      (req : Command)
      → Reads
          (fill_auth_details s req)
          (account_command req name num pwd)
          (newline ∷ account_lines name num pwd)
  unfolding fill_auth_details
  fill_auth-Reads req =
      bind-Reads _ name _ _ (newline ∷ line_of name) (line_of (decimal num) ++ line_of pwd)
        (string-Reads _ (newline ∷ line_of name) name h.is_name h.name_no_quit
          (left-Spells name (name-IsAnswer name h.is_name h.name_no_quit)))
        (bind-Reads _ num _ _ (line_of (decimal num)) (line_of pwd)
          (uint32-Reads _ (line_of (decimal num)) num h.fits
            (line_of-Spells (decimal num) (decimal-IsAnswer num (omega (arith, h.fits)))))
          (finish-Reads _ pwd _ _ (line_of pwd)
            (password-Reads _ (line_of pwd) pwd h.is_password h.password_no_quit
              (line_of-Spells pwd (password-IsAnswer pwd h.is_password h.password_no_quit)))
            (pure-Reads _)))

  pub service-Reads :
      (n : ℕ)
      → (n ≡ Service.close) ⊎ (n ≡ Service.get_balance)
      → Reads
          (fill_service s n (asked n))
          (account_command (asked n) name num pwd)
          (newline ∷ account_lines name num pwd)
  service-Reads n (inl e) = rw e (
      boxed-Reads s 2 (fill_auth_details s (asked 2)) _ (newline ∷ account_lines name num pwd)
        (fill_auth-Reads (asked 2)))
  service-Reads n (inr e) = rw e (
      boxed-Reads s 6 (fill_auth_details s (asked 6)) _ (newline ∷ account_lines name num pwd)
        (fill_auth-Reads (asked 6)))

number_read :
    (c : Client) (n : ℕ) (s : Bytes)
    → n < 2 ^ 31
    → c.input ≡ decimal n ++ newline ∷ s
    → read_int c ≡ (ok n, record c { input = newline ∷ s })
unfolding read_int
number_read c n s fits e = rw (e, read_int-decimal n s fits) refl

-- The menu behind the number of a service.
pub chosen-Reads :
    (s : Services) (n : ℕ) (cmd : Command) (text : Bytes)
    → 1 ≤ n
    → n ≤ 7
    → Reads (fill_service s n (record empty_command { service = some n })) cmd (newline ∷ text)
    → Reads (build_command s) cmd (decimal n ++ newline ∷ text)
unfolding build_command
chosen-Reads s n cmd text low high h c rest e =
    let typed : c.input ≡ decimal n ++ newline ∷ (text ++ rest) =
      e ∙ append_assoc (decimal n) (newline ∷ text) rest in
    let same : n % 256 ≡ n = omega arith in
    let some_service : (n == 0) ≡ false = ground arith in
    rw (number_read c n (text ++ rest) (omega arith) typed, some_service, same)
      (h (record c { input = newline ∷ (text ++ rest) }) rest refl)
