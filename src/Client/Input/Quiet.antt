-- ===== src/Client/Input/Quiet.antt =====
-- The dialogue with the user leaves the network alone.
use sc4051_distributed_banki.Base.{
  ℕ, zero, suc, ◌≤◌, length, arith, ◌≡◌, refl, ◌∙◌, ◌∷◌, Bool-cases, inl, inr, if◌then◌else◌,
}
use sc4051_distributed_banki.Base.Outcome.{
  InternalError, Result, ok, fail, crash, unfinished, user_canceled,
}
use sc4051_distributed_banki.Base.Text.{codes}
use sc4051_distributed_banki.Memory.{Bytes}
use sc4051_distributed_banki.Terminal.Input.Shrinks.{read_line-length}
use sc4051_distributed_banki.Client.State.{
  Client, Io, Services, continue, ◌>>=◌, ◌>>◌, pure, raise, say, read_line,
}
use sc4051_distributed_banki.Client.Text.{trim_string, same_text}
use sc4051_distributed_banki.Client.Number.{Judged, accepted, refused}
use sc4051_distributed_banki.Client.Input.{
  ask, get_validated_uint32, get_validated_double, get_validated_string, get_validated_password,
  get_validated_currency,
}

-- What the header of a request holds of the client.
abbrev pub identity_of : Client → ℕ × ℕ × ℕ × ℕ
identity_of c = (c.current_request_id, c.flag, c.local_ip, c.local_port)

-- Nothing was sent, no request was counted, flag and address are the same, what is to arrive is what it was, and of what was typed no
-- more is left than before.
pub record Untouched (c c' : Client) : Type 0 where
  pub nothing_sent : c'.sent ≡ c.sent
  pub nothing_received : c'.incoming ≡ c.incoming
  pub same_identity : identity_of c' ≡ identity_of c
  pub typed_shrinks : length c'.input ≤ length c.input

abbrev pub Quiet : {A : Type 0} → Io A → Type 0
Quiet m = (c : Client) → Untouched c (m c).1

-- A step that leaves these alone.
pub calm :
    (c c' : Client)
    → c'.sent ≡ c.sent
    → c'.incoming ≡ c.incoming
    → identity_of c' ≡ identity_of c
    → length c'.input ≤ length c.input
    → Untouched c c'
calm c c' n r i t = record {
  nothing_sent = n;
  nothing_received = r;
  same_identity = i;
  typed_shrinks = t;
}

pub same : (c : Client) → Untouched c c
same c = calm c c refl refl refl (omega arith)

pub both : (c c1 c2 : Client) → Untouched c c1 → Untouched c1 c2 → Untouched c c2
both c c1 c2 x y = record {
  nothing_sent = y.nothing_sent ∙ x.nothing_sent;
  nothing_received = y.nothing_received ∙ x.nothing_received;
  same_identity = y.same_identity ∙ x.same_identity;
  typed_shrinks = omega (arith, x.typed_shrinks, y.typed_shrinks);
}

continue-Quiet :
    {A B : Type 0} (r : Result A) (f : A → Io B) (c : Client)
    → ((a : A) → Quiet (f a))
    → Untouched c (continue r f c).1
continue-Quiet (ok a) f c h = h a c
continue-Quiet (fail e) f c h = same c
continue-Quiet crash f c h = same c
continue-Quiet unfinished f c h = same c

pub bind-Quiet :
    {A B : Type 0} (m : Io A) (f : A → Io B) → Quiet m → ((a : A) → Quiet (f a)) → Quiet (m >>= f)
bind-Quiet m f h k c = both c (m c).1 ((m >>= f) c).1 (h c) (continue-Quiet (m c).0 f (m c).1 k)

read_line-Quiet : Quiet read_line
unfolding read_line
read_line-Quiet c = calm c _ refl refl refl (read_line-length c.input)

said : {A : Type 0} (m : Io A) (c c' : Client) → Untouched c c' → Quiet m → Untouched c (m c').1
said m c c' x h = both c c' (m c').1 x (h c')

module _ {A : Type 0} (prompt : Bytes) (judge : Bytes → Judged A) (final : InternalError) where
  judged-Quiet :
      (j : Judged A) (next : Io A)
      → Quiet next
      → Quiet (elim j [ accepted a ↦ pure a | refused message ↦ (say message >> next) ])
  judged-Quiet (accepted a) next h c = same c
  judged-Quiet (refused message) next h c = said next c _ (calm c _ refl refl refl (omega arith)) h

  line-Quiet :
      (line : Bytes) (next : Io A)
      → Quiet next
      → Quiet (
          if same_text (trim_string line) (codes "quit")
          then raise user_canceled
          else elim (judge (trim_string line)) [
            | accepted a ↦ pure a
            | refused message ↦ (say message >> next)
          ])
  line-Quiet line next h = elim (Bool-cases (same_text (trim_string line) (codes "quit"))) [
    | inl quit ↦ rw quit (λ c. same c)
    | inr more ↦ rw more (judged-Quiet (judge (trim_string line)) next h)
  ]

  pub ask-Quiet : (tries : ℕ) → Quiet (ask tries prompt judge final)
  unfolding ask
  ask-Quiet zero c = calm c _ refl refl refl (omega arith)
  ask-Quiet (suc tries) c =
      said
        (read_line >>= λ line.
          if same_text (trim_string line) (codes "quit")
          then raise user_canceled
          else elim (judge (trim_string line)) [
            | accepted a ↦ pure a
            | refused message ↦ (say message >> ask tries prompt judge final)
          ])
        c (record c { screen = _ ∷ c.screen }) (calm c _ refl refl refl (omega arith))
        (bind-Quiet read_line _ read_line-Quiet
          (λ line. line-Quiet line (ask tries prompt judge final) (ask-Quiet tries)))

pub string-Quiet : (prompt : Bytes) → Quiet (get_validated_string prompt)
unfolding get_validated_string
string-Quiet prompt = ask-Quiet prompt _ _ 5

pub password-Quiet : (prompt : Bytes) → Quiet (get_validated_password prompt)
unfolding get_validated_password
password-Quiet prompt = ask-Quiet prompt _ _ 5

pub currency-Quiet : (s : Services) (prompt : Bytes) → Quiet (get_validated_currency s prompt)
unfolding get_validated_currency
currency-Quiet s prompt = ask-Quiet prompt _ _ 5

pub uint32-Quiet : (prompt : Bytes) → Quiet (get_validated_uint32 prompt)
unfolding get_validated_uint32
uint32-Quiet prompt = ask-Quiet prompt _ _ 5

pub double-Quiet : (s : Services) (prompt : Bytes) → Quiet (get_validated_double s prompt)
unfolding get_validated_double
double-Quiet s prompt = ask-Quiet prompt _ _ 5
