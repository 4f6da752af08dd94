-- ===== src/Workflow/Validation/Names.antt =====
-- The steps of the checks of validation.py, one at a time: what each of them has passed.
use agent_workflow_kernel.Prelude.{
  ℕ, suc, zero, String, ◌≡◌, refl, ap, sym, subst, Bool, true, false, not, Option, none, some, List,
  [], ◌∷◌, inl, inr, arith, ◌==◌, eq_iff, ==→≡, Bool-cases, All, All-map, Unique, exists,
  exists-none,
}
use agent_workflow_kernel.Json.{
  Json, null, bool, num, negative, str, arr, obj, Fields, end, field, field_of, get, elements, keys,
  strings,
}
use agent_workflow_kernel.Workflow.Validation.{
  Violation, Checked, valid, invalid, ◌>>=◌, ensure, require_text, is_positive_int, check_seconds,
  validate_optional_lease, validate_outcomes, lease_entry,
}
use agent_workflow_kernel.Workflow.Validation.Spec.{IsNamed, IsLease}

pub bind-valid {ℓ κ} :
    {A : Type ℓ} {B : Type κ} (r : Checked A) (f : A → Checked B) (b : B)
    → (r >>= f) ≡ valid b
    → (a : A) × (r ≡ valid a) × (f a ≡ valid b)
bind-valid (valid a) f b h = (a, refl, h)
bind-valid (invalid e) f b h = absurd (cc h)

pub ensure-valid : (b : Bool) (e : Violation) (u : Unit {0}) → ensure b e ≡ valid u → b ≡ true
ensure-valid true e u h = refl
ensure-valid false e u h = absurd (cc h)

pub require_text-valid : (s t : String) → require_text (str s) ≡ valid t → IsNamed s × (s ≡ t)
require_text-valid s t h = elim (Bool-cases (s == "")) [
  | inl e ↦ absurd (cc (rw e at h))
  | inr e ↦ (e, cc (rw e at h))
]

pub of_negation : (b : Bool) → not b ≡ true → b ≡ false
of_negation b h = ground arith

pub passes :
    {A : Type 0} (b : Bool) (e : Violation) (f : Unit {0} → Checked A) (a : A)
    → (ensure b e >>= f) ≡ valid a
    → (b ≡ true) × (f tt ≡ valid a)
passes true e f a h = (refl, h)
passes false e f a h = absurd (cc h)

-- The outcomes of a stage.
pub All-of_none {ℓ} :
    {A : Type ℓ} (q : A → Bool) (xs : List A) → exists q xs ≡ false → All (λ x. q x ≡ false) xs
unfolding exists
All-of_none q [] h = tt
All-of_none q (x ∷ xs) h = (ground arith, All-of_none q xs (ground arith))

apart :
    (n : String) (seen : List String) (o : String)
    → exists (λ x. x == o) (n ∷ seen) ≡ false
    → (o == n) ≡ false
unfolding exists
apart n seen o h = ground (arith, eq_iff o n, eq_iff n o)

older :
    (n : String) (seen : List String) (o : String)
    → exists (λ x. x == o) (n ∷ seen) ≡ false
    → exists (λ x. x == o) seen ≡ false
unfolding exists
older n seen o h = ground arith

pub validate_outcomes-valid :
    (os seen names : List String)
    → validate_outcomes (elements (strings os)) seen ≡ valid names
    → (names ≡ os)
      × All IsNamed os
      × Unique (λ o. o) os
      × All (λ o. exists (λ x. x == o) seen ≡ false) os
unfolding validate_outcomes
validate_outcomes-valid [] seen names h = (cc h, tt, tt, tt)
validate_outcomes-valid (o ∷ os) seen names h =
    let (name, read, h1) = bind-valid _ _ names h in
    let (named, same) = require_text-valid o name read in
    let (fresh, h2) = passes _ _ _ names h1 in
    let (rest, deeper, h3) = bind-valid _ _ names h2 in
    let (whole, all_named, all_unique, all_fresh) =
      validate_outcomes-valid os (name ∷ seen) rest deeper in
    let gone : exists (λ x. x == name) seen ≡ false = of_negation _ fresh in
    (
      cc (h3, same, whole),
      (named, all_named),
      (
        exists-none (λ x. x == o) os
            (All-map os (λ x f. subst (λ n. (x == n) ≡ false) (sym same) (apart name seen x f))
              all_fresh),
        all_unique,
      ),
      (
        subst (λ n. exists (λ x. x == n) seen ≡ false) (sym same) gone,
        All-map os (older name seen) all_fresh,
      ),
    )

-- A lease, as the mapping of a stage has it.
is_positive_int-num : (v : Json) → is_positive_int v ≡ true → (n : ℕ) × (v ≡ num (suc n))
is_positive_int-num null h = absurd (cc h)
is_positive_int-num (bool b) h = absurd (cc h)
is_positive_int-num (num zero) h = absurd (cc h)
is_positive_int-num (num (suc n)) h = (n, refl)
is_positive_int-num (negative n) h = absurd (cc h)
is_positive_int-num (str s) h = absurd (cc h)
is_positive_int-num (arr xs) h = absurd (cc h)
is_positive_int-num (obj fs) h = absurd (cc h)

check_seconds-valid :
    (o : Option Json) (u : Unit {0})
    → check_seconds o ≡ valid u
    → (n : ℕ) × (o ≡ some (num (suc n)))
check_seconds-valid none u h = absurd (cc h)
check_seconds-valid (some v) u h =
    let (n, e) = is_positive_int-num v (ensure-valid _ _ u h) in (n, ap some e)

only_seconds : (k : String) → not (k == "seconds") ≡ false → k ≡ "seconds"
only_seconds k h = ==→≡ k "seconds" (ground arith)

pub lease_entry-valid :
    (lease : Fields) (u : Unit {0})
    → validate_optional_lease (get "lease" (lease_entry lease)) ≡ valid u
    → IsLease lease
unfolding validate_optional_lease field_of
lease_entry-valid end u h = tt
lease_entry-valid (field k v rest) u h =
    let (known, h1) = passes _ _ _ u h in
    (
      All-map (keys (field k v rest)) only_seconds
          (All-of_none (λ l. not (l == "seconds")) (keys (field k v rest)) (of_negation _ known)),
      check_seconds-valid (field_of "seconds" (field k v rest)) u h1,
    )
