-- ===== src/Prelude/Lists.antt =====
-- Tables as lists of rows: selection, update and the laws of a unique key.
use mathlib.Core.Path.{◌≡◌, refl}
use mathlib.Core.Logic.{inl, inr}
use mathlib.Core.Bool.{Bool, true, false, ◌||◌}
use mathlib.Core.Option.{Option, none, some}
use mathlib.Core.List.{List, [], ◌∷◌, ◌++◌}
use native.Mathlib.Omega.{arith}
use Prim.Native.Nat.{ℕ, suc}
use agent_workflow_kernel.Prelude.Tests.{if◌then◌else◌, Bool-cases}

module _ {ℓ} {A : Type ℓ} where
  abbrev pub length : List A → ℕ
  length [] = 0
  length (x ∷ xs) = suc (length xs)

  abbrev pub All {κ} : (A → Type κ) → List A → Type κ
  All P [] = Unit
  All P (x ∷ xs) = P x × All P xs

  -- `SELECT … WHERE p`
  unfoldable pub select : (A → Bool) → List A → List A
  select p [] = []
  select p (x ∷ xs) = let rest = select p xs in if p x then x ∷ rest else rest

  -- `SELECT … WHERE p LIMIT 1`
  unfoldable pub select_first : (A → Bool) → List A → Option A
  select_first p [] = none
  select_first p (x ∷ xs) = let rest = select_first p xs in if p x then some x else rest

  -- `UPDATE … SET f WHERE p`
  unfoldable pub update_where : (A → Bool) → (A → A) → List A → List A
  update_where p f [] = []
  update_where p f (x ∷ xs) = (if p x then f x else x) ∷ update_where p f xs

  unfoldable pub exists : (A → Bool) → List A → Bool
  exists p [] = false
  exists p (x ∷ xs) = p x || exists p xs

  -- `LIMIT 1`
  abbrev pub limit_one : List A → Option A
  limit_one [] = none
  limit_one (x ∷ xs) = some x

  pub select_first-holds :
      (p : A → Bool) (xs : List A) (x : A) → select_first p xs ≡ some x → p x ≡ true
  unfolding select_first
  select_first-holds p [] x h = ground arith
  select_first-holds p (y ∷ ys) x h = elim (Bool-cases (p y)) [
    | inl e ↦ ground arith
    | inr e ↦ select_first-holds p ys x (ground arith)
  ]

  pub select_first-none :
      (p : A → Bool) (xs : List A) → exists p xs ≡ false → select_first p xs ≡ none
  unfolding select_first exists
  select_first-none p [] h = refl
  select_first-none p (y ∷ ys) h = ground (arith, select_first-none p ys)

  pub exists-append :
      (p : A → Bool) (xs ys : List A) → exists p (xs ++ ys) ≡ (exists p xs || exists p ys)
  unfolding exists
  exists-append p [] ys = refl
  exists-append p (x ∷ xs) ys = ground (arith, exists-append p xs ys)
