-- ===== src/Prelude/Results.antt =====
-- Fallible computations, and computations that also change a state which an error does not undo.
use mathlib.Core.Path.{◌≡◌, refl}
use mathlib.Core.Logic.{◌⊎◌, inl, inr}
use mathlib.Core.Bool.{Bool, true, false}
use mathlib.Core.Option.{Option, none, some}
use Prim.Native.Nat.{ℕ}
use ongrok_relay.Prelude.Tests.{leb, if◌then◌else◌}
use native.Mathlib.Omega.{arith}
use ongrok_relay.Prelude.Strings.{Text}

pub data Result (E A : Type 0) : Type 0 where
  ok : A → Result E A
  err : E → Result E A

-- `anyhow::Error`, as the text that `to_string` gives: the outermost context.
abbrev pub Error : Type 0
Error = Text

-- `anyhow::Result`.
abbrev pub Fallible : Type 0 → Type 0
Fallible A = Result Error A

abbrev pub is_ok : {E A : Type 0} → Result E A → Bool
is_ok (ok a) = true
is_ok (err e) = false

-- `?` on a value without state.
abbrev pub bind : {E A B : Type 0} → Result E A → (A → Result E B) → Result E B
bind (ok a) f = f a
bind (err e) f = err e

-- `Option::context` and `Result::context`.
abbrev pub or_fail : {E A : Type 0} → Option A → E → Result E A
or_fail none e = err e
or_fail (some a) e = ok a

abbrev pub context : {E A : Type 0} → Result E A → Error → Fallible A
context (ok a) e = ok a
context (err e') e = err e

abbrev pub map_err : {E F A : Type 0} → (E → F) → Result E A → Result F A
map_err f (ok a) = ok a
map_err f (err e) = err (f e)

abbrev pub M : Type 0 → Type 0 → Type 0
M S A = S → Fallible A × S

abbrev pub after : {S A B : Type 0} → Fallible A × S → (A → M S B) → Fallible B × S
after (ok a, s) f = f a s
after (err e, s) f = (err e, s)

infixl 5 ◌>>=◌ ◌>>◌
abbrev pub ◌>>=◌ : {S A B : Type 0} → M S A → (A → M S B) → M S B
◌>>=◌ m f s = after (m s) f

abbrev pub ◌>>◌ : {S B : Type 0} → M S (Unit {0}) → M S B → M S B
◌>>◌ m k s = after (m s) (λ _. k)

abbrev pub pure : {S A : Type 0} → A → M S A
pure a s = (ok a, s)

abbrev pub fail : {S A : Type 0} → Error → M S A
fail e s = (err e, s)

abbrev pub lift : {S A : Type 0} → Fallible A → M S A
lift r s = (r, s)

abbrev pub get : {S : Type 0} → M S S
get s = (ok s, s)

abbrev pub modify : {S : Type 0} → (S → S) → M S (Unit {0})
modify f s = (ok tt, f s)

abbrev pub attempt_with : {S A : Type 0} → Fallible A × S → Fallible (Fallible A) × S
attempt_with (r, s) = (ok r, s)

-- The outcome of a computation as a value: the code goes on whether it failed or not.
abbrev pub attempt : {S A : Type 0} → M S A → M S (Fallible A)
attempt m s = attempt_with (m s)

pub Result-cases :
    {E A : Type 0} (r : Result E A) → ((a : A) × (r ≡ ok a)) ⊎ ((e : E) × (r ≡ err e))
Result-cases (ok a) = inl (a, refl)
Result-cases (err e) = inr (e, refl)

pub bind-eq-ok :
    {E A B : Type 0} (first : Result E A) (next : A → Result E B) {result : B}
    → bind first next ≡ ok result
    → (value : A) × (first ≡ ok value) × (next value ≡ ok result)
bind-eq-ok (err e) next h = cc
bind-eq-ok (ok value) next h = (value, refl, h)

-- A computation that goes on after another and succeeds: the first one has succeeded too.
pub after-eq-ok :
    {S A B : Type 0} (r : Fallible A × S) (next : A → M S B) {b : B} {t : S}
    → after r next ≡ (ok b, t)
    → (a : A) × (s : S) × (r ≡ (ok a, s)) × (next a s ≡ (ok b, t))
after-eq-ok (ok a, s) next h = (a, s, refl, h)
after-eq-ok (err e, s) next h = absurd (ground arith)

-- The same of its result alone.
pub after-ok :
    {S A B : Type 0} (r : Fallible A × S) (next : A → M S B) {b : B}
    → (after r next).0 ≡ ok b
    → (a : A) × (s : S) × (r ≡ (ok a, s)) × ((next a s).0 ≡ ok b)
after-ok (ok a, s) next h = (a, s, refl, h)
after-ok (err e, s) next h = absurd (ground arith)

-- An operation that waits, by the milliseconds that it takes and its result.
pub record Wait (A : Type 0) : Type 0 where
  pub after : ℕ
  pub result : Fallible A

-- `tokio::time::timeout`: the result, where it is there in time.
abbrev pub timely : {A : Type 0} → ℕ → Wait A → Option (Fallible A)
timely limit w = if leb w.after limit then some w.result else none

-- The error of a timeout is given the context `e`.
abbrev pub in_time : {A : Type 0} → Option (Fallible A) → Error → Fallible A
in_time none e = err e
in_time (some result) e = result
