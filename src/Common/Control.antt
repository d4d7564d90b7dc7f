-- ===== src/Common/Control.antt =====
-- The control flow of the C++ code: a call returns, throws, or has not returned after the rounds
-- that the model gives its loops.
use mathlib.Core.Path.{◌≡◌, refl}
use mathlib.Core.Logic.{◌⊎◌, inl, inr}

pub data Outcome {ℓ κ} (E : Type ℓ) (A : Type κ) : Type (ℓ ⊔ κ) where
  ok : A → Outcome E A
  throw : E → Outcome E A
  running : Outcome E A

-- A computation over a state `S`. What it wrote before it threw stays written.
abbrev pub M : Type 0 → Type 0 → Type 0 → Type 0
M S E A = S → Outcome E A × S

abbrev pub continue_with : {S E A B : Type 0} → Outcome E A × S → (A → M S E B) → Outcome E B × S
continue_with (ok a, s) f = f a s
continue_with (throw e, s) f = (throw e, s)
continue_with (running, s) f = (running, s)

infixl 5 ◌>>=◌ ◌>>◌
abbrev pub ◌>>=◌ : {S E A B : Type 0} → M S E A → (A → M S E B) → M S E B
◌>>=◌ m f s = continue_with (m s) f

abbrev pub ◌>>◌ : {S E B : Type 0} → M S E (Unit {0}) → M S E B → M S E B
◌>>◌ m k s = continue_with (m s) (λ _. k)

abbrev pub pure : {S E A : Type 0} → A → M S E A
pure a s = (ok a, s)

abbrev pub raise : {S E A : Type 0} → E → M S E A
raise e s = (throw e, s)

-- A call that has no more rounds.
abbrev pub suspend : {S E A : Type 0} → M S E A
suspend s = (running, s)

-- `try { m } catch (...) { handler }`; the handler throws again what it does not catch.
abbrev pub handle_with : {S E A : Type 0} → Outcome E A × S → (E → M S E A) → Outcome E A × S
handle_with (ok a, s) h = (ok a, s)
handle_with (throw e, s) h = h e s
handle_with (running, s) h = (running, s)

abbrev pub catch : {S E A : Type 0} → M S E A → (E → M S E A) → M S E A
catch m h s = handle_with (m s) h

-- A pure call that returns or throws, without a state.
abbrev pub of_outcome : {S E A : Type 0} → Outcome E A → M S E A
of_outcome r s = (r, s)

infixl 5 ◌>>-◌
abbrev pub ◌>>-◌ {ℓ} : {E A : Type 0} {B : Type ℓ} → Outcome E A → (A → Outcome E B) → Outcome E B
ok a >>- f = f a
throw e >>- f = throw e
running >>- f = running

pub Outcome-cases :
    {E A : Type 0} (r : Outcome E A)
    → ((a : A) × (r ≡ ok a)) ⊎ ((e : E) × (r ≡ throw e)) ⊎ (r ≡ running)
Outcome-cases (ok a) = inl (a, refl)
Outcome-cases (throw e) = inr (inl (e, refl))
Outcome-cases running = inr (inr refl)

pub ok_inj : {E A : Type 0} (a b : A) → ◌≡◌ {A = Outcome E A} (ok a) (ok b) → a ≡ b
ok_inj a b e = cc

-- A property of the state after `m >>= f`, from one of the state after `m`.
pub continue_with-post :
    {S E A B : Type 0} (P Q : S → Type 0) (f : A → M S E B) (r : Outcome E A × S)
    → P r.1
    → ((s : S) → P s → Q s)
    → ((a : A) (s : S) → P s → Q (f a s).1)
    → Q (continue_with r f).1
continue_with-post P Q f (ok a, s) p weaken h = h a s p
continue_with-post P Q f (throw e, s) p weaken h = weaken s p
continue_with-post P Q f (running, s) p weaken h = weaken s p
