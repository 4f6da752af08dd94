-- ===== src/Prelude/Keys.antt =====
-- Tables with a primary key: a row is found by its key, and updates that keep the keys keep this.
use Prim.Native.String.{String}
use mathlib.Core.Path.{◌≡◌, refl, ap, subst, ◌∙◌}
use mathlib.Core.Bool.{Bool, true, false, ◌&&◌}
use mathlib.Core.Option.{Option, none, some}
use mathlib.Core.Logic.{inl, inr}
use mathlib.Core.List.{List, [], ◌∷◌, ◌++◌}
use native.Mathlib.Omega.{arith}
use text.Mathlib.TextEquality.{eq_iff}
use agent_workflow_kernel.Prelude.Tests.{◌==◌, if◌then◌else◌, Bool-cases, coalesce, is_some}
use agent_workflow_kernel.Prelude.Lists.{All, select_first, update_where, exists, exists-append}

-- What an update makes of a row.
abbrev pub touched {ℓ} : {A : Type ℓ} → (A → Bool) → (A → A) → Option A → Option A
touched p f none = none
touched p f (some x) = some (if p x then f x else x)

abbrev pub kept_if {ℓ} : {A : Type ℓ} → (A → Bool) → Option A → Option A
kept_if q none = none
kept_if q (some x) = if q x then some x else none

pub kept_if-some {ℓ} :
    {A : Type ℓ} (q : A → Bool) (o : Option A) (x : A)
    → kept_if q o ≡ some x
    → (o ≡ some x) × (q x ≡ true)
kept_if-some q none x h = ground arith
kept_if-some q (some y) x h = elim (Bool-cases (q y)) [
  | inl e ↦ let same : y ≡ x = ground arith in (ap some same, subst (λ z. q z ≡ true) same e)
  | inr e ↦ ground arith
]

module _ {ℓ} {A : Type ℓ} (key : A → String) where
  abbrev pub has_key : String → List A → Bool
  has_key k = exists (λ x. key x == k)

  abbrev pub by_key : String → List A → Option A
  by_key k = select_first (λ x. key x == k)

  -- No two rows share a key.
  abbrev pub Unique : List A → Type 0
  Unique [] = Unit
  Unique (x ∷ xs) = (has_key (key x) xs ≡ false) × Unique xs

  pub by_key-key : (k : String) (xs : List A) (x : A) → by_key k xs ≡ some x → key x ≡ k
  unfolding select_first
  by_key-key k [] x h = ground arith
  by_key-key k (y ∷ ys) x h = elim (Bool-cases (key y == k)) [
    | inl e ↦ ground (arith, eq_iff (key y) k)
    | inr e ↦ by_key-key k ys x (ground arith)
  ]

  pub by_key-has_key : (k : String) (xs : List A) → is_some (by_key k xs) ≡ has_key k xs
  unfolding select_first exists
  by_key-has_key k [] = refl
  by_key-has_key k (y ∷ ys) = ground (arith, by_key-has_key k ys)

  pub by_key-guarded :
      (k : String) (q : A → Bool) (xs : List A)
      → Unique xs
      → select_first (λ x. (key x == k) && q x) xs ≡ kept_if q (by_key k xs)
  unfolding select_first exists
  by_key-guarded k q [] u = refl
  by_key-guarded k q (y ∷ ys) u =
      ground (arith, by_key-guarded k q ys u.1, by_key-has_key k ys, eq_iff (key y) k)

  pub All-by_key {κ} :
      (P : A → Type κ) (k : String) (xs : List A) (x : A) → All P xs → by_key k xs ≡ some x → P x
  unfolding select_first
  All-by_key P k [] x h e = ground arith
  All-by_key P k (y ∷ ys) x h e = elim (Bool-cases (key y == k)) [
    | inl t ↦ subst P (let e' : y ≡ x = ground arith in e') h.0
    | inr t ↦ All-by_key P k ys x h.1 (ground arith)
  ]

  pub exists-by_key :
      (p : A → Bool) (k : String) (xs : List A) (x : A)
      → by_key k xs ≡ some x
      → p x ≡ true
      → exists p xs ≡ true
  unfolding select_first exists
  exists-by_key p k [] x e h = absurd (cc)
  exists-by_key p k (y ∷ ys) x e h = elim (Bool-cases (key y == k)) [
    | inl t ↦ let same : y ≡ x = ground arith in rw (ap p same ∙ h) refl
    | inr t ↦ ground (arith, exists-by_key p k ys x (ground arith) h)
  ]

  pub by_key-append :
      (k : String) (xs : List A) (y : A)
      → by_key k (xs ++ y ∷ []) ≡ coalesce (by_key k xs) (if key y == k then some y else none)
  unfolding select_first
  by_key-append k [] y = refl
  by_key-append k (x ∷ xs) y = ground (arith, by_key-append k xs y)

  pub Unique-append :
      (xs : List A) (y : A) → Unique xs → has_key (key y) xs ≡ false → Unique (xs ++ y ∷ [])
  unfolding exists
  Unique-append [] y u h = (refl, tt)
  Unique-append (x ∷ xs) y u h = (
    ground (
      arith,
      exists-append (λ (z : A). key z == key x) xs (y ∷ []),
      eq_iff (key x) (key y),
      eq_iff (key y) (key x),
    ),
    Unique-append xs y u.1 (ground arith),
  )

  module _ (p : A → Bool) (f : A → A) (keeps : (x : A) → key (f x) ≡ key x) where
    pub by_key-update :
        (k : String) (xs : List A) → by_key k (update_where p f xs) ≡ touched p f (by_key k xs)
    unfolding select_first update_where
    by_key-update k [] = refl
    by_key-update k (x ∷ xs) = ground (arith, by_key-update k xs, keeps x)

    pub has_key-update : (k : String) (xs : List A) → has_key k (update_where p f xs) ≡ has_key k xs
    unfolding exists update_where
    has_key-update k [] = refl
    has_key-update k (x ∷ xs) = ground (arith, has_key-update k xs, keeps x)

    pub Unique-update : (xs : List A) → Unique xs → Unique (update_where p f xs)
    unfolding exists update_where
    Unique-update [] u = tt
    Unique-update (x ∷ xs) u =
        let same : key (if p x then f x else x) ≡ key x = ground (arith, keeps x) in
        (rw (same, has_key-update (key x) xs) u.0, Unique-update xs u.1)
