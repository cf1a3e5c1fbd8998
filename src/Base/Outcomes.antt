-- ===== src/Base/Outcomes.antt =====
-- How a call ends: with a value, with an error value, by a panic, or not at all.
use mathlib.Core.Path.{◌≡◌, refl}
use mathlib.Core.Logic.{◌⊎◌, inl, inr}
use mathlib.Core.Bool.{Bool, true, false}

-- `panicked` is an `unwrap` or an index that fails; `stuck` means that a loop's fuel ran out.
pub data Outcome (E A : Type 0) : Type 0 where
  done : A → Outcome E A
  failed : E → Outcome E A
  panicked : Outcome E A
  stuck : Outcome E A

infixl 5 ◌>>=◌ ◌>>◌
abbrev pub ◌>>=◌ : {E A B : Type 0} → Outcome E A → (A → Outcome E B) → Outcome E B
done a >>= f = f a
failed e >>= f = failed e
panicked >>= f = panicked
stuck >>= f = stuck

abbrev pub ◌>>◌ : {E B : Type 0} → Outcome E (Unit {0}) → Outcome E B → Outcome E B
m >> k = m >>= λ _. k

-- Inversion of a successful bind, for proofs where the parts stay shut.
pub >>=-eq-done :
    {E A B : Type 0} (m : Outcome E A) (f : A → Outcome E B) {b : B}
    → (m >>= f) ≡ done b
    → (a : A) × (m ≡ done a) × (f a ≡ done b)
>>=-eq-done (done a) f h = (a, refl, h)
>>=-eq-done (failed e) f h = cc
>>=-eq-done panicked f h = cc
>>=-eq-done stuck f h = cc

pub Outcome-cases :
    {E A : Type 0} (r : Outcome E A)
    → ((a : A) × (r ≡ done a)) ⊎ ((e : E) × (r ≡ failed e)) ⊎ (r ≡ panicked) ⊎ (r ≡ stuck)
Outcome-cases (done a) = inl (a, refl)
Outcome-cases (failed e) = inr (inl (e, refl))
Outcome-cases panicked = inr (inr (inl refl))
Outcome-cases stuck = inr (inr (inr refl))

pub done-inj : {E A : Type 0} {a b : A} → ◌≡◌ {A = Outcome E A} (done a) (done b) → a ≡ b
done-inj h = cc

abbrev pub is_done : {E A : Type 0} → Outcome E A → Bool
is_done (done a) = true
is_done _ = false

pub is_done-done : {E A : Type 0} (r : Outcome E A) → is_done r ≡ true → (a : A) × (r ≡ done a)
is_done-done (done a) h = (a, refl)
is_done-done (failed e) h = cc
is_done-done panicked h = cc
is_done-done stuck h = cc
