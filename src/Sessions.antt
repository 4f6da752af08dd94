-- ===== src/Sessions.antt =====
-- packages/kernel/agent_workflow_kernel/sessions.py: the caps on a bounded conversational session. The
-- elapsed time is in microseconds; a cap on it is in seconds, as in the source.
pub mod Laws
use agent_workflow_kernel.Prelude.{
  ℕ, zero, suc, String, Bool, true, false, ◌||◌, ◌*◌, Option, none, some, List, [], ◌∷◌, ◌==◌, leb,
  is_some, coalesce, if◌then◌else◌,
}
use agent_workflow_kernel.Json.{IntReading, unreadable, below_zero, natural}

-- A value of the `budget:` mapping, by what `_coerce_session_limit` tells apart. `other` is a value that
-- `int` refuses with a TypeError, such as a list.
pub data Setting : Type 0 where
  null other : Setting
  boolean : Bool → Setting
  integer negative : ℕ → Setting
  text : String → Setting

-- A limit, or the ValueError.
pub data Checked {ℓ} (A : Type ℓ) : Type ℓ where
  valid : A → Checked A
  value_error : Checked A

infixl 5 ◌>>=◌
abbrev pub ◌>>=◌ {ℓ κ} : {A : Type ℓ} {B : Type κ} → Checked A → (A → Checked B) → Checked B
valid a >>= f = f a
value_error >>= f = value_error

abbrev pub read_limit : IntReading → Checked (Option ℕ)
read_limit unreadable = value_error
read_limit below_zero = value_error
read_limit (natural n) = valid (some n)

-- `_coerce_session_limit`
unfoldable pub coerce_session_limit : (String → IntReading) → Setting → Checked (Option ℕ)
coerce_session_limit int_of null = valid none
coerce_session_limit int_of (boolean _) = value_error
coerce_session_limit int_of (integer n) = valid (some n)
coerce_session_limit int_of (negative _) = value_error
coerce_session_limit int_of (text s) = read_limit (int_of s)
coerce_session_limit int_of other = value_error

pub record SessionBudget : Type 0 where
  pub max_turns : Option ℕ
  pub max_total_tokens : Option ℕ
  pub max_wall_seconds : Option ℕ

unfoldable pub lookup : String → List (String × Setting) → Option Setting
lookup k [] = none
lookup k ((l, v) ∷ rest) = let below = lookup k rest in if l == k then some v else below

-- The first of an axis's three names that the mapping has, and None if it has none of them.
unfoldable pub picked : String → String → String → List (String × Setting) → Setting
picked a b c m = elim (coalesce (lookup a m) (coalesce (lookup b m) (lookup c m))) [
  | none ↦ null
  | some v ↦ v
]

-- `SessionBudget.from_mapping`, and the checks of `__post_init__` in their order.
unfoldable pub from_mapping :
    (String → IntReading) → Option (List (String × Setting)) → Checked SessionBudget
from_mapping int_of none =
    valid (record { max_turns = none; max_total_tokens = none; max_wall_seconds = none })
from_mapping int_of (some m) = do
  turns ← coerce_session_limit int_of (picked "max_turns" "max_turn" "turn_cap" m)
  tokens ← coerce_session_limit int_of (picked "max_total_tokens" "max_tokens" "token_cap" m)
  wall ← coerce_session_limit int_of (picked "max_wall_seconds" "max_seconds" "time_cap_seconds" m)
  valid (record { max_turns = turns; max_total_tokens = tokens; max_wall_seconds = wall })

unfoldable pub is_capped : SessionBudget → Bool
is_capped b = is_some b.max_turns || is_some b.max_total_tokens || is_some b.max_wall_seconds

unfoldable pub has_hard_backstop : SessionBudget → Bool
has_hard_backstop b = is_some b.max_turns || is_some b.max_wall_seconds

abbrev pub layer_turns : ℕ → SessionBudget → Checked SessionBudget
layer_turns zero b = value_error
layer_turns (suc n) b = valid (record b { max_turns = some (suc n) })

-- The default is an integer that is not negative.
unfoldable pub with_hard_backstop : ℕ → SessionBudget → Checked SessionBudget
with_hard_backstop default_max_turns b =
    if has_hard_backstop b then valid b else layer_turns default_max_turns b

-- An axis is reached: it has a cap, and the value is the cap or more.
abbrev pub reached : Option ℕ → ℕ → Bool
reached none v = false
reached (some cap) v = leb cap v

abbrev pub in_microseconds : Option ℕ → Option ℕ
in_microseconds none = none
in_microseconds (some n) = some (n * 1000000)

unfoldable pub cap_hit : SessionBudget → ℕ → ℕ → ℕ → Option String
cap_hit b turns total_tokens elapsed =
    if reached b.max_turns turns
    then some "max_turns"
    else if reached b.max_total_tokens total_tokens
    then some "max_total_tokens"
    else if reached (in_microseconds b.max_wall_seconds) elapsed
    then some "max_wall_seconds"
    else none
