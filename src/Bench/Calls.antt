-- ===== src/Bench/Calls.antt =====
-- Calls that change a state and may raise: what was written stays written when a later step raises.
use rvln.Prelude.{Bool, Result, ok, raise, if◌then◌else◌, value_error}

abbrev pub Call : Type 0 → Type 0 → Type 0
Call S A = S → Result A × S

module _ {S A : Type 0} where
  abbrev pub pure : A → Call S A
  pure a s = (ok a, s)

  -- A step that reads and writes nothing.
  abbrev pub lift : Result A → Call S A
  lift r s = (r, s)

infixl 5 ◌>>=◌ ◌>>◌
abbrev pub ◌>>=◌ : {S A B : Type 0} → Call S A → (A → Call S B) → Call S B
◌>>=◌ m f s = let (r, s') = m s in elim r [ ok a ↦ f a s' | raise e ↦ (raise e, s') ]

abbrev pub ◌>>◌ : {S A B : Type 0} → Call S A → Call S B → Call S B
m >> k = m >>= λ _. k

abbrev pub raise_if : {S : Type 0} → Bool → Call S Unit
raise_if c s = (if c then raise value_error else ok tt, s)

-- A call on one half of the state.
module _ {S P A : Type 0} where
  abbrev pub on_left : Call S A → Call (S × P) A
  on_left m (s, p) = let (r, s') = m s in (r, (s', p))

  abbrev pub on_right : Call P A → Call (S × P) A
  on_right m (s, p) = let (r, p') = m p in (r, (s, p'))
