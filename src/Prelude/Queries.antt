-- ===== src/Prelude/Queries.antt =====
-- What the rows of a query have in common with the rows of its table, and the order of its rows.
use Prim.Native.Nat.{ℕ, ◌≤◌}
use Prim.Native.String.{String}
use mathlib.Core.Path.{◌≡◌, refl, subst, ◌∙◌}
use mathlib.Core.Logic.{inl, inr}
use mathlib.Core.Bool.{Bool, true, false, ◌||◌}
use mathlib.Core.Option.{none, some}
use mathlib.Core.List.{List, [], ◌∷◌}
use native.Mathlib.Omega.{arith}
use native.Mathlib.Nat.{le_refl, le_trans}
use text.Mathlib.TextEquality.{eq_iff}
use text.Mathlib.TextPositions.{eq_refl}
use agent_workflow_kernel.Prelude.Tests.{◌==◌, Bool-cases}
use agent_workflow_kernel.Prelude.Lists.{All, select, select_first, exists}
use agent_workflow_kernel.Prelude.Order.{insert_by, order_by}
use agent_workflow_kernel.Prelude.Keys.{Unique, by_key, has_key}

module _ {ℓ} {A : Type ℓ} where
  pub All-map {κ μ} :
      {P : A → Type κ} {Q : A → Type μ} (xs : List A) → ((x : A) → P x → Q x) → All P xs → All Q xs
  All-map [] f h = tt
  All-map (x ∷ xs) f h = (f x h.0, All-map xs f h.1)

  pub All-both {κ μ} :
      (P : A → Type κ) (Q : A → Type μ) (xs : List A)
      → All P xs
      → All Q xs
      → All (λ x. P x × Q x) xs
  All-both P Q [] h k = tt
  All-both P Q (x ∷ xs) h k = ((h.0, k.0), All-both P Q xs h.1 k.1)

  pub All-select {κ} :
      (P : A → Type κ) (p : A → Bool) (xs : List A) → All P xs → All P (select p xs)
  unfolding select
  All-select P p [] h = tt
  All-select P p (x ∷ xs) h = elim (Bool-cases (p x)) [
    | inl e ↦ rw e (h.0, All-select P p xs h.1)
    | inr e ↦ rw e (All-select P p xs h.1)
  ]

  pub select-holds : (p : A → Bool) (xs : List A) → All (λ x. p x ≡ true) (select p xs)
  unfolding select
  select-holds p [] = tt
  select-holds p (x ∷ xs) = elim (Bool-cases (p x)) [
    | inl e ↦ rw e (e, select-holds p xs)
    | inr e ↦ rw e (select-holds p xs)
  ]

  pub All-of_select {κ} :
      (P : A → Type κ) (p : A → Bool) (xs : List A)
      → All P (select p xs)
      → All (λ x. p x ≡ true → P x) xs
  unfolding select
  All-of_select P p [] h = tt
  All-of_select P p (x ∷ xs) h = elim (Bool-cases (p x)) [
    | inl e ↦
        let h' : P x × All P (select p xs) = (rw e at h) in (λ _. h'.0, All-of_select P p xs h'.1)
    | inr e ↦ (λ t. absurd (cc (e, t)), All-of_select P p xs (rw e at h))
  ]

  pub All-select_first {κ} :
      (P : A → Type κ) (q : A → Bool) (xs : List A) (x : A)
      → All P xs
      → select_first q xs ≡ some x
      → P x
  unfolding select_first
  All-select_first P q [] x h e = absurd (cc)
  All-select_first P q (y ∷ ys) x h e = elim (Bool-cases (q y)) [
    | inl t ↦ subst P (let same : y ≡ x = ground arith in same) h.0
    | inr t ↦ All-select_first P q ys x h.1 (ground arith)
  ]

  pub select_first-none_All :
      (q : A → Bool) (xs : List A) → select_first q xs ≡ none → All (λ x. q x ≡ false) xs
  unfolding select_first
  select_first-none_All q [] e = tt
  select_first-none_All q (y ∷ ys) e = elim (Bool-cases (q y)) [
    | inl t ↦ absurd (let no : some y ≡ none = ground arith in cc no)
    | inr t ↦ (t, select_first-none_All q ys (ground arith))
  ]

  All-of_insert_by {κ} :
      (P : A → Type κ) (before : A → A → Bool) (x : A) (xs : List A)
      → All P (insert_by before x xs)
      → P x × All P xs
  unfolding insert_by
  All-of_insert_by P before x [] h = (h.0, tt)
  All-of_insert_by P before x (y ∷ ys) h = elim (Bool-cases (before y x)) [
    | inl e ↦
        let h' : P y × All P (insert_by before x ys) = (rw e at h) in
        let (px, rest) = All-of_insert_by P before x ys h'.1 in (px, (h'.0, rest))
    | inr e ↦ let h' : P x × (P y × All P ys) = (rw e at h) in (h'.0, h'.1)
  ]

  pub All-of_order_by {κ} :
      (P : A → Type κ) (before : A → A → Bool) (xs : List A) → All P (order_by before xs) → All P xs
  unfolding order_by
  All-of_order_by P before [] h = tt
  All-of_order_by P before (x ∷ xs) h =
      let (px, rest) = All-of_insert_by P before x (order_by before xs) h in
      (px, All-of_order_by P before xs rest)

module _ {ℓ} {A : Type ℓ} where
  pub exists-select :
      (q p : A → Bool) (xs : List A) → exists q xs ≡ false → exists q (select p xs) ≡ false
  unfolding exists select
  exists-select q p [] h = refl
  exists-select q p (x ∷ xs) h = elim (Bool-cases (p x)) [
    | inl e ↦ rw e (ground (arith, exists-select q p xs))
    | inr e ↦ rw e (exists-select q p xs (ground arith))
  ]

  exists-insert_by :
      (q : A → Bool) (before : A → A → Bool) (x : A) (xs : List A)
      → exists q (insert_by before x xs) ≡ (q x || exists q xs)
  unfolding exists insert_by
  exists-insert_by q before x [] = refl
  exists-insert_by q before x (y ∷ ys) = elim (Bool-cases (before y x)) [
    | inl e ↦ rw e (rw (exists-insert_by q before x ys) (ground arith))
    | inr e ↦ rw e refl
  ]

  pub exists-order_by :
      (q : A → Bool) (before : A → A → Bool) (xs : List A)
      → exists q (order_by before xs) ≡ exists q xs
  unfolding exists order_by
  exists-order_by q before [] = refl
  exists-order_by q before (x ∷ xs) =
      exists-insert_by q before x (order_by before xs) ∙ rw (exists-order_by q before xs) refl

  pub exists-none : (q : A → Bool) (xs : List A) → All (λ x. q x ≡ false) xs → exists q xs ≡ false
  unfolding exists
  exists-none q [] h = refl
  exists-none q (x ∷ xs) h = rw (h.0) (exists-none q xs h.1)

module _ {ℓ} {A : Type ℓ} (key : A → String) where
  pub Unique-select : (p : A → Bool) (xs : List A) → Unique key xs → Unique key (select p xs)
  unfolding select
  Unique-select p [] u = tt
  Unique-select p (x ∷ xs) u = elim (Bool-cases (p x)) [
    | inl e ↦ rw e (exists-select (λ y. key y == key x) p xs u.0, Unique-select p xs u.1)
    | inr e ↦ rw e (Unique-select p xs u.1)
  ]

  Unique-insert_by :
      (before : A → A → Bool) (x : A) (xs : List A)
      → has_key key (key x) xs ≡ false
      → Unique key xs
      → Unique key (insert_by before x xs)
  unfolding insert_by exists
  Unique-insert_by before x [] h u = (refl, tt)
  Unique-insert_by before x (y ∷ ys) h u = elim (Bool-cases (before y x)) [
    | inl e ↦
        let apart : (key x == key y) ≡ false =
          ground (arith, eq_iff (key x) (key y), eq_iff (key y) (key x)) in
        rw e (
          exists-insert_by (λ z. key z == key y) before x ys ∙ rw apart u.0,
          Unique-insert_by before x ys (ground arith) u.1,
        )
    | inr e ↦ rw e (h, u)
  ]

  pub Unique-order_by :
      (before : A → A → Bool) (xs : List A) → Unique key xs → Unique key (order_by before xs)
  unfolding order_by
  Unique-order_by before [] u = tt
  Unique-order_by before (x ∷ xs) u =
      Unique-insert_by before x (order_by before xs)
        (exists-order_by (λ z. key z == key x) before xs ∙ u.0) (Unique-order_by before xs u.1)

-- Rows in the order of a number, which the comparison may refine.
module _ {ℓ} {A : Type ℓ} (f : A → ℕ) where
  abbrev pub Ascending : List A → Type 0
  Ascending [] = Unit
  Ascending (x ∷ xs) = All (λ y. f x ≤ f y) xs × Ascending xs

  module _ (before : A → A → Bool) (lower : (a b : A) → before a b ≡ true → f a ≤ f b)
      (upper : (a b : A) → before a b ≡ false → f b ≤ f a) where
    insert_by-All_le :
        (n : ℕ) (x : A) (xs : List A)
        → n ≤ f x
        → All (λ y. n ≤ f y) xs
        → All (λ y. n ≤ f y) (insert_by before x xs)
    unfolding insert_by
    insert_by-All_le n x [] l h = (l, tt)
    insert_by-All_le n x (y ∷ ys) l h = elim (Bool-cases (before y x)) [
      | inl e ↦ rw e (h.0, insert_by-All_le n x ys l h.1)
      | inr e ↦ rw e (l, h)
    ]

    insert_by-Ascending : (x : A) (xs : List A) → Ascending xs → Ascending (insert_by before x xs)
    unfolding insert_by
    insert_by-Ascending x [] h = (tt, tt)
    insert_by-Ascending x (y ∷ ys) h = elim (Bool-cases (before y x)) [
      | inl e ↦ rw e (insert_by-All_le (f y) x ys (lower y x e) h.0, insert_by-Ascending x ys h.1)
      | inr e ↦ rw e ((upper y x e, All-map ys (λ z l. le_trans (upper y x e) l) h.0), h)
    ]

    pub order_by-Ascending : (xs : List A) → Ascending (order_by before xs)
    unfolding order_by
    order_by-Ascending [] = tt
    order_by-Ascending (x ∷ xs) = insert_by-Ascending x (order_by before xs) (order_by-Ascending xs)

  pub select_first-least :
      (q : A → Bool) (xs : List A) (x : A)
      → Ascending xs
      → select_first q xs ≡ some x
      → All (λ y. q y ≡ true → f x ≤ f y) xs
  unfolding select_first
  select_first-least q [] x h e = tt
  select_first-least q (y ∷ ys) x h e = elim (Bool-cases (q y)) [
    | inl t ↦
        let same : y ≡ x = ground arith in
        subst (λ z. All (λ w. q w ≡ true → f z ≤ f w) (y ∷ ys)) same
          (λ _. le_refl (f y), All-map ys (λ z l _. l) h.0)
    | inr t ↦ (λ yes'. absurd (cc (t, yes')), select_first-least q ys x h.1 (ground arith))
  ]

-- A row is found by its own key.
module _ {ℓ} {A : Type ℓ} (key : A → String) where
  found_later :
      (y : A) (ys xs : List A)
      → has_key key (key y) ys ≡ false
      → All (λ x. by_key key (key x) xs ≡ some x) ys
      → ((x : A)
          → (key y == key x) ≡ false
          → by_key key (key x) xs ≡ some x
          → by_key key (key x) (y ∷ xs) ≡ some x)
      → All (λ x. by_key key (key x) (y ∷ xs) ≡ some x) ys
  unfolding exists
  found_later y [] xs free h step = tt
  found_later y (z ∷ zs) xs free h step =
      let apart : (key y == key z) ≡ false =
        ground (arith, eq_iff (key y) (key z), eq_iff (key z) (key y)) in
      (step z apart h.0, found_later y zs xs (ground arith) h.1 step)

  pub by_key_self : (xs : List A) → Unique key xs → All (λ x. by_key key (key x) xs ≡ some x) xs
  unfolding select_first
  by_key_self [] u = tt
  by_key_self (x ∷ xs) u = (
    rw (eq_refl (key x)) refl,
    found_later x xs xs u.0 (by_key_self xs u.1) (λ z apart e. rw apart e),
  )
