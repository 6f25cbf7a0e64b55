-- ===== src/Prelude/State.antt =====
-- State and failure: a step returns its result, if it has one, and the state that it leaves.
use mathlib.Core.Option.{Option, none, some}

-- what follows a step that has run; a failure ends the chain in the state that it left
abbrev pub and_then : {S A B : Type 0} → Option A × S → (A → S → Option B × S) → Option B × S
and_then (none, s) next = (none, s)
and_then (some a, s) next = next a s

-- a chain of steps, for `do` blocks
infixl 5 ◌>>=◌ ◌>>◌
abbrev pub ◌>>=◌ : {S A B : Type 0} → (S → Option A × S) → (A → S → Option B × S) → S → Option B × S
◌>>=◌ step next s = and_then (step s) next

abbrev pub ◌>>◌ : {S A B : Type 0} → (S → Option A × S) → (S → Option B × S) → S → Option B × S
◌>>◌ step next s = and_then (step s) (λ _. next)

abbrev pub return : {S A : Type 0} → A → S → Option A × S
return a s = (some a, s)

abbrev pub fail : {S A : Type 0} → S → Option A × S
fail s = (none, s)
