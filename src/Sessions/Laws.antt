-- ===== src/Sessions/Laws.antt =====
-- That no session budget of sessions.py with a backstop lets a conversation run for ever, and
-- which settings leave an axis without a cap.
use agent_workflow_kernel.Prelude.{
  ℕ, zero, suc, ◌≤◌, ◌<◌, ◌*◌, String, ◌≡◌, ◌≢◌, ◌↔◌, refl, ap, sym, subst, ◌∙◌, true, false,
  Option, none, some, List, inl, inr, arith, Bool-cases, Option-cases,
}
use agent_workflow_kernel.Sessions.{
  Setting, boolean, negative, integer, text, other, null, read_limit, ◌>>=◌, Checked, valid,
  value_error, coerce_session_limit, SessionBudget, picked, lookup, from_mapping, has_hard_backstop,
  with_hard_backstop, layer_turns, reached, in_microseconds, cap_hit,
}
use agent_workflow_kernel.Json.{IntReading, unreadable, below_zero, natural}

reached_iff : (o : Option ℕ) (v : ℕ) → (reached o v ≡ false) ↔ ((m : ℕ) → o ≡ some m → v < m)
reached_iff none v = (λ _ m e. absurd (cc e), λ _. refl)
reached_iff (some cap) v =
    (λ h m e. let same : cap ≡ m = cc e in ground arith, λ f. let lt = f cap refl in ground arith)

wall_reached_iff :
    (o : Option ℕ) (v : ℕ)
    → (reached (in_microseconds o) v ≡ false) ↔ ((m : ℕ) → o ≡ some m → v < m * 1000000)
wall_reached_iff none v = (λ _ m e. absurd (cc e), λ _. refl)
wall_reached_iff (some cap) v =
    (λ h m e. let same : cap ≡ m = cc e in ground arith, λ f. let lt = f cap refl in ground arith)

cap_hit-none :
    (b : SessionBudget) (turns tokens elapsed : ℕ)
    → (cap_hit b turns tokens elapsed ≡ none) ↔ (
        (reached b.max_turns turns ≡ false)
        × (reached b.max_total_tokens tokens ≡ false)
        × (reached (in_microseconds b.max_wall_seconds) elapsed ≡ false))
unfolding cap_hit
cap_hit-none b turns tokens elapsed =
    (λ h. (ground arith, ground arith, ground arith), λ (t, k, w). rw (t, k, w) refl)

-- A session may go on exactly when it is below the cap of each axis that has one.
pub cap_hit-none_iff :
    (b : SessionBudget) (turns tokens elapsed : ℕ)
    → (cap_hit b turns tokens elapsed ≡ none) ↔ (
        ((m : ℕ) → b.max_turns ≡ some m → turns < m)
        × ((m : ℕ) → b.max_total_tokens ≡ some m → tokens < m)
        × ((m : ℕ) → b.max_wall_seconds ≡ some m → elapsed < m * 1000000))
cap_hit-none_iff b turns tokens elapsed =
    let all = cap_hit-none b turns tokens elapsed in
    let turn_axis = reached_iff b.max_turns turns in
    let token_axis = reached_iff b.max_total_tokens tokens in
    let wall_axis = wall_reached_iff b.max_wall_seconds elapsed in
    (
      λ h. let (t, k, w) = all.0 h in (turn_axis.0 t, token_axis.0 k, wall_axis.0 w),
      λ (t, k, w). all.1 (turn_axis.1 t, token_axis.1 k, wall_axis.1 w),
    )

-- From some point on, whatever the tokens are.
abbrev pub Stops : SessionBudget → Type 0
Stops b =
    (n : ℕ) × ((turns tokens elapsed : ℕ)
      → n ≤ turns
      → n ≤ elapsed
      → cap_hit b turns tokens elapsed ≢ none)

backstop-Stops : (b : SessionBudget) → has_hard_backstop b ≡ true → Stops b
unfolding has_hard_backstop
backstop-Stops b capped = elim (Option-cases b.max_turns) [
  | inr (m, e) ↦ (
    m,
    λ turns tokens elapsed le _ h.
        let lt = ((cap_hit-none_iff b turns tokens elapsed).0 h).0 m e in omega arith,
  )
  | inl unlimited ↦ elim (Option-cases b.max_wall_seconds) [
    | inr (m, e) ↦ (
      m * 1000000,
      λ turns tokens elapsed _ le h.
          let lt = ((cap_hit-none_iff b turns tokens elapsed).0 h).2 m e in omega arith,
    )
    | inl endless ↦ absurd (cc (rw (unlimited, endless) at capped))
  ]
]

layered :
    (d : ℕ) (b b' : SessionBudget)
    → layer_turns d b ≡ valid b'
    → (has_hard_backstop b' ≡ true)
      × (b'.max_total_tokens ≡ b.max_total_tokens)
      × (b'.max_wall_seconds ≡ b.max_wall_seconds)
unfolding has_hard_backstop
layered zero b b' h = absurd (cc h)
layered (suc n) b b' h =
    let same : record b { max_turns = some (suc n) } ≡ b' = cc h in
    (
      subst (λ (x : SessionBudget). has_hard_backstop x ≡ true) same refl,
      subst (λ (x : SessionBudget). x.max_total_tokens ≡ b.max_total_tokens) same refl,
      subst (λ (x : SessionBudget). x.max_wall_seconds ≡ b.max_wall_seconds) same refl,
    )

-- The budget that `with_hard_backstop` returns keeps the caps on tokens and on time of the given one,
-- and it stops: there is a number such that, once that many turns are produced and that many
-- microseconds have passed, a cap is hit, however few tokens are reported.
pub backstop_stops :
    (d : ℕ) (b b' : SessionBudget)
    → with_hard_backstop d b ≡ valid b'
    → (b'.max_total_tokens ≡ b.max_total_tokens)
      × (b'.max_wall_seconds ≡ b.max_wall_seconds)
      × ((n : ℕ) × ((turns tokens elapsed : ℕ)
            → n ≤ turns
            → n ≤ elapsed
            → cap_hit b' turns tokens elapsed ≢ none))
unfolding with_hard_backstop
backstop_stops d b b' h = elim (Bool-cases (has_hard_backstop b)) [
  | inl capped ↦
      let same : b ≡ b' = cc (rw (capped, with_hard_backstop) at h) in
      (
        ap (λ (x : SessionBudget). x.max_total_tokens) (sym same),
        ap (λ (x : SessionBudget). x.max_wall_seconds) (sym same),
        backstop-Stops b' (ap has_hard_backstop (sym same) ∙ capped),
      )
  | inr uncapped ↦
      let (capped, tokens, wall) = layered d b b' (rw (uncapped, with_hard_backstop) at h) in
      (tokens, wall, backstop-Stops b' capped)
]

bind-valid {ℓ κ} :
    {A : Type ℓ} {B : Type κ} (r : Checked A) (f : A → Checked B) (b : B)
    → (r >>= f) ≡ valid b
    → (a : A) × (r ≡ valid a) × (f a ≡ valid b)
bind-valid (valid a) f b h = (a, refl, h)
bind-valid value_error f b h = absurd (cc h)

-- A value is read as no cap exactly if it is None.
coerce-null :
    (int_of : String → IntReading) (v : Setting) (o : Option ℕ)
    → coerce_session_limit int_of v ≡ valid o
    → (o ≡ none) ↔ (v ≡ null)
unfolding coerce_session_limit
coerce-null int_of null o h = (λ _. refl, λ _. let e : o ≡ none = cc h in e)
coerce-null int_of other o h = absurd (cc h)
coerce-null int_of (boolean _) o h = absurd (cc h)
coerce-null int_of (integer n) o h = (λ e. absurd (cc (h, e)), λ e. absurd (cc e))
coerce-null int_of (negative _) o h = absurd (cc h)
coerce-null int_of (text s) o h = (λ e. absurd (read_caps (int_of s) o h e), λ e. absurd (cc e))
  where
    read_caps : (i : IntReading) (x : Option ℕ) → read_limit i ≡ valid x → x ≢ none
    read_caps unreadable x k e = absurd (cc k)
    read_caps below_zero x k e = absurd (cc k)
    read_caps (natural n) x k e = absurd (cc (k, e))

-- The first of the three names that the mapping has stands for None, or it has none of them.
pub data IsUnset (a b c : String) (m : List (String × Setting)) : Type 0 where
  first_null : lookup a m ≡ some null → IsUnset a b c m
  second_null : lookup a m ≡ none → lookup b m ≡ some null → IsUnset a b c m
  third_null : lookup a m ≡ none → lookup b m ≡ none → lookup c m ≡ some null → IsUnset a b c m
  absent : lookup a m ≡ none → lookup b m ≡ none → lookup c m ≡ none → IsUnset a b c m

IsUnset-picked :
    (a b c : String) (m : List (String × Setting)) → IsUnset a b c m → picked a b c m ≡ null
unfolding picked
IsUnset-picked a b c m (first_null x) = rw (x, picked) refl
IsUnset-picked a b c m (second_null x y) = rw (x, y, picked) refl
IsUnset-picked a b c m (third_null x y z) = rw (x, y, z, picked) refl
IsUnset-picked a b c m (absent x y z) = rw (x, y, z, picked) refl

picked-IsUnset :
    (a b c : String) (m : List (String × Setting)) → picked a b c m ≡ null → IsUnset a b c m
unfolding picked
picked-IsUnset a b c m h = elim (Option-cases (lookup a m)) [
  | inr (v, x) ↦ first_null (x ∙ ap some (rw (x, picked) at h))
  | inl x ↦ elim (Option-cases (lookup b m)) [
    | inr (v, y) ↦ second_null x (y ∙ ap some (rw (x, y, picked) at h))
    | inl y ↦ elim (Option-cases (lookup c m)) [
      | inr (v, z) ↦ third_null x y (z ∙ ap some (rw (x, y, z, picked) at h))
      | inl z ↦ absent x y z
    ]
  ]
]

axis-IsUnset :
    (int_of : String → IntReading) (a b c : String) (m : List (String × Setting)) (o : Option ℕ)
    → coerce_session_limit int_of (picked a b c m) ≡ valid o
    → (o ≡ none) ↔ IsUnset a b c m
axis-IsUnset int_of a b c m o h =
    let (to_null, of_null) = coerce-null int_of (picked a b c m) o h in
    (λ e. picked-IsUnset a b c m (to_null e), λ u. of_null (IsUnset-picked a b c m u))

-- A budget that is read from a mapping is without a cap on an axis exactly if the mapping has none of the
-- axis's three names, or the first of them that it has stands for None, whatever the later ones say.
-- Every other setting is a cap.
pub from_mapping_fails_closed :
    (int_of : String → IntReading) (m : List (String × Setting)) (b : SessionBudget)
    → from_mapping int_of (some m) ≡ valid b
    → ((b.max_turns ≡ none) ↔ IsUnset "max_turns" "max_turn" "turn_cap" m)
      × ((b.max_total_tokens ≡ none) ↔ IsUnset "max_total_tokens" "max_tokens" "token_cap" m)
      × ((b.max_wall_seconds ≡ none)
          ↔ IsUnset "max_wall_seconds" "max_seconds" "time_cap_seconds" m)
unfolding from_mapping
from_mapping_fails_closed int_of m b h =
    let (turns, e1, h1) = bind-valid _ _ b h in
    let (tokens, e2, h2) = bind-valid _ _ b h1 in
    let (wall, e3, h3) = bind-valid _ _ b h2 in
    let same : record { max_turns = turns; max_total_tokens = tokens; max_wall_seconds = wall }
        ≡ b =
      cc h3 in
    subst
      (λ (x : SessionBudget).
        ((x.max_turns ≡ none) ↔ IsUnset "max_turns" "max_turn" "turn_cap" m)
        × ((x.max_total_tokens ≡ none) ↔ IsUnset "max_total_tokens" "max_tokens" "token_cap" m)
        × ((x.max_wall_seconds ≡ none)
            ↔ IsUnset "max_wall_seconds" "max_seconds" "time_cap_seconds" m))
      same
      (
        axis-IsUnset int_of "max_turns" "max_turn" "turn_cap" m turns e1,
        axis-IsUnset int_of "max_total_tokens" "max_tokens" "token_cap" m tokens e2,
        axis-IsUnset int_of "max_wall_seconds" "max_seconds" "time_cap_seconds" m wall e3,
      )
