-- ===== src/Client/Typed.antt =====
-- What the dialogue makes of the lines that a user types: a small logic of runs that read a text.
pub mod Answers
pub mod Account
pub mod Requests
pub mod Dialogues
pub mod Chosen
pub mod Understood
pub mod Session
pub mod Served
mod Tests
use sc4051_distributed_banki.Base.{
  ℕ, zero, suc, ◌≡◌, refl, ap, ◌∙◌, Bool, false, [], ◌∷◌, ◌++◌, append_assoc, append-nil,
}
use mathlib.Core.Path.{subst}
use sc4051_distributed_banki.Base.Outcome.{InternalError, Result, ok}
use sc4051_distributed_banki.Base.Text.{codes}
use sc4051_distributed_banki.Memory.{Bytes}
use sc4051_distributed_banki.Terminal.Input
use sc4051_distributed_banki.Terminal.Input.{newline}
use sc4051_distributed_banki.Terminal.Input.Typed.{read_line-line, read_line-left}
use sc4051_distributed_banki.Client.State.{
  Client, Io, Output, print_prompt, continue, ◌>>=◌, ◌>>◌, pure, say, read_line,
}
use sc4051_distributed_banki.Client.Text.{trim_string, same_text}
use sc4051_distributed_banki.Client.Text.Lines.{IsAnswer, trim_string-IsDark}
use sc4051_distributed_banki.Client.Number.{Judged, accepted}
use sc4051_distributed_banki.Client.Input.{ask}

-- When the text is what is typed next, the run returns a and leaves what is behind the text.
abbrev pub Reads : {A : Type 0} → Io A → A → Bytes → Type 0
Reads m a text =
    (c : Client) (rest : Bytes) → c.input ≡ text ++ rest → ((m c).0 ≡ ok a) × ((m c).1.input ≡ rest)

pub pure-Reads : {A : Type 0} (a : A) → Reads (pure a) a []
pure-Reads a c rest e = (refl, e)

continue-Reads :
    {A B : Type 0} (r : Result A) (a : A) (f : A → Io B) (b : B) (c : Client) (rest : Bytes)
    → r ≡ ok a
    → ((f a c).0 ≡ ok b) × ((f a c).1.input ≡ rest)
    → ((continue r f c).0 ≡ ok b) × ((continue r f c).1.input ≡ rest)
continue-Reads r a f b c rest e h = rw e h

pub bind-Reads :
    {A B : Type 0} (m : Io A) (a : A) (f : A → Io B) (b : B) (first second : Bytes)
    → Reads m a first
    → Reads (f a) b second
    → Reads (m >>= f) b (first ++ second)
bind-Reads m a f b first second h k c rest e =
    let (ends, left) = h c (second ++ rest) (e ∙ append_assoc first second rest) in
    continue-Reads (m c).0 a f b (m c).1 rest ends (k (m c).1 rest left)

-- What follows reads nothing.
pub finish-Reads :
    {A B : Type 0} (m : Io A) (a : A) (f : A → Io B) (b : B) (text : Bytes)
    → Reads m a text
    → Reads (f a) b []
    → Reads (m >>= f) b text
finish-Reads m a f b text h k =
    subst (Reads (m >>= f) b) (append-nil text) (bind-Reads m a f b text [] h k)

pub say-Reads :
    {A : Type 0} (o : Output) (m : Io A) (a : A) (text : Bytes)
    → Reads m a text
    → Reads (say o >> m) a text
say-Reads o m a text h c rest e = h (record c { screen = o ∷ c.screen }) rest e

-- A text that a call of `read_line` takes for the line.
abbrev pub Spells : Bytes → Bytes → Type 0
Spells text line = (rest : Bytes) → Input.read_line (text ++ rest) ≡ (line, rest)

abbrev pub line_of : Bytes → Bytes
line_of line = line ++ newline ∷ []

pub line_of-Spells : (line : Bytes) → IsAnswer line → Spells (line_of line) line
line_of-Spells line h rest =
    rw (append_assoc line (newline ∷ []) rest) (read_line-line line rest h.some_text)

-- The same line behind the newline of the number that was typed before.
pub left-Spells : (line : Bytes) → IsAnswer line → Spells (newline ∷ line_of line) line
left-Spells line h rest =
    rw (append_assoc line (newline ∷ []) rest) (read_line-left line rest h.some_text)

read_line-Reads : (text line : Bytes) → Spells text line → Reads read_line line text
unfolding read_line
read_line-Reads text line h c rest e = rw (e, h rest) (refl, refl)

-- A dialogue returns what its test makes of the first line, where that is a value.
pub ask-Reads :
    {A : Type 0} (tries : ℕ) (prompt : Bytes) (judge : Bytes → Judged A) (final : InternalError)
    (text line : Bytes) (a : A)
    → IsAnswer line
    → Spells text line
    → judge line ≡ accepted a
    → Reads (ask (suc tries) prompt judge final) a text
unfolding ask
ask-Reads tries prompt judge final text line a h spells judged c rest e =
    let prompted : Output = print_prompt (prompt ++ codes " (or type 'quit' to cancel)") in
    let c1 : Client = record c { screen = prompted ∷ c.screen } in
    let (ends, left) = read_line-Reads text line spells c1 rest e in
    rw (ends, trim_string-IsDark line h.dark, h.no_quit, judged) (refl, left)
