-- ===== src/Prelude/Exec.antt =====
-- Methods that change a store and may fail. What was written before a failure stays written, so the
-- store comes back beside the error too.
use mathlib.Core.Path.{◌≡◌, refl}
use claude_ops.Prelude.Outcome.{Error, Result, ok, err, is_ok}

abbrev pub Exec : Type 0 → Type 0 → Type 0
Exec S A = S → Result A × S

abbrev pub and_then : {S A B : Type 0} → Result A × S → (A → Exec S B) → Result B × S
and_then (ok a, s) f = f a s
and_then (err e, s) f = (err e, s)

-- An action that only reads the store.
abbrev pub reads : {S A : Type 0} → (S → Result A) → Exec S A
reads f s = (f s, s)

abbrev pub pure : {S A : Type 0} → A → Exec S A
pure a s = (ok a, s)

abbrev pub fail : {S A : Type 0} → Error → Exec S A
fail e s = (err e, s)

infixl 5 ◌>>=◌ ◌>>◌
abbrev pub ◌>>=◌ : {S A B : Type 0} → Exec S A → (A → Exec S B) → Exec S B
◌>>=◌ m f s = and_then (m s) f

abbrev pub ◌>>◌ : {S B : Type 0} → Exec S (Unit {0}) → Exec S B → Exec S B
◌>>◌ m k = m >>= λ _. k

module _ {S A B : Type 0} where
  -- Mapping the result of an action leaves the store, and the failure, as the action left them.
  pub state-then_pure : (r : Result A × S) (f : A → B) → (and_then r (λ a. pure (f a))).1 ≡ r.1
  state-then_pure (ok a, s) f = refl
  state-then_pure (err e, s) f = refl

  pub then_pure-is_ok :
      (r : Result A × S) (f : A → B) → is_ok (and_then r (λ a. pure (f a))).0 ≡ is_ok r.0
  then_pure-is_ok (ok a, s) f = refl
  then_pure-is_ok (err e, s) f = refl

  pub then_pure-err :
      (r : Result A × S) (f : A → B) (e : Error)
      → (and_then r (λ a. pure (f a))).0 ≡ err e
      → r.0 ≡ err e
  then_pure-err (ok a, s) f e h = cc
  then_pure-err (err x, s) f e h = cc

  -- The parts of a chain that succeeds.
  pub and_then-ok :
      (r : Result A × S) (f : A → Exec S B) (b : B)
      → (and_then r f).0 ≡ ok b
      → (a : A) × (r.0 ≡ ok a) × (and_then r f ≡ f a r.1)
  and_then-ok (ok a, s) f b h = (a, refl, refl)
  and_then-ok (err e, s) f b h = cc
