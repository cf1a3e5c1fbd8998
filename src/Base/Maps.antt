-- ===== src/Base/Maps.antt =====
-- Ordered maps (`BTreeMap`) and hash maps as association lists, newest key in its sorted place.
use mathlib.Core.Path.{◌≡◌, refl}
use mathlib.Core.Bool.{Bool, true}
use mathlib.Core.Logic.{◌↔◌}
use mathlib.Core.List.{List, [], ◌∷◌}
use mathlib.Core.Option.{Option, none, some}
use native.Mathlib.Omega.{arith}
use crypto_nav_manager.Base.Tests.{if◌then◌else◌}

-- What a map asks of its keys: equality, and the order in which it lists them.
pub record Key (K : Type 0) : Type 0 where
  pub beq : K → K → Bool
  pub before : K → K → Bool
  pub beq_iff : (a b : K) → (beq a b ≡ true) ↔ (a ≡ b)

module _ {K V : Type 0} ⦃k : Key K⦄ where
  unfoldable pub lookup : K → List (K × V) → Option V
  lookup i [] = none
  lookup i ((j, v) ∷ m) = if k.beq j i then some v else lookup i m

  -- Replaces the value of a key that is there, and otherwise puts the key before the next larger.
  unfoldable pub insert : K → V → List (K × V) → List (K × V)
  insert i v [] = (i, v) ∷ []
  insert i v ((j, w) ∷ m) =
      if k.beq j i
      then (i, v) ∷ m
      else if k.before i j
      then (i, v) ∷ (j, w) ∷ m
      else (j, w) ∷ insert i v m

  unfoldable pub remove : K → List (K × V) → List (K × V)
  remove i [] = []
  remove i ((j, v) ∷ m) = if k.beq j i then remove i m else (j, v) ∷ remove i m

  pub lookup-insert :
      (i j : K) (v : V) (m : List (K × V))
      → lookup j (insert i v m) ≡ (if k.beq i j then some v else lookup j m)
  unfolding lookup insert
  lookup-insert i j v [] = refl
  lookup-insert i j v ((l, w) ∷ m) =
      ground (arith, k.beq_iff i j, k.beq_iff l i, k.beq_iff l j, lookup-insert i j v m)

  pub lookup-remove :
      (i j : K) (m : List (K × V))
      → lookup j (remove i m) ≡ (if k.beq i j then none else lookup j m)
  unfolding lookup remove
  lookup-remove i j [] = ground arith
  lookup-remove i j ((l, w) ∷ m) =
      ground (arith, k.beq_iff i j, k.beq_iff l i, k.beq_iff l j, lookup-remove i j m)
