-- ===== src/Json.antt =====
-- The values that the ledger stores as JSON text: what `_json` of
-- packages/kernel/agent_workflow_kernel/storage.py is given.
use agent_workflow_kernel.Prelude.{
  ℕ, String, Bool, true, false, not, Option, none, some, List, [], ◌∷◌, ◌==◌, eqb, if◌then◌else◌,
}

mutual
  pub data Json : Type 0 where
    null : Json
    bool : Bool → Json
    num : ℕ → Json
    -- `- 1 - n`
    negative : ℕ → Json
    str : String → Json
    arr : Items → Json
    obj : Fields → Json

  pub data Items : Type 0 where
    nil : Items
    cons : Json → Items → Items

  pub data Fields : Type 0 where
    end : Fields
    field : String → Json → Fields → Fields

-- An `int`: `negsuc n` is `- 1 - n`.
pub data ℤ : Type 0 where
  pos negsuc : ℕ → ℤ

-- What Python's `int` makes of a text.
pub data IntReading : Type 0 where
  unreadable below_zero : IntReading
  natural : ℕ → IntReading

abbrev pub integer : ℤ → Json
integer (pos n) = num n
integer (negsuc n) = negative n

abbrev pub opt_integer : Option ℤ → Json
opt_integer none = null
opt_integer (some i) = integer i

abbrev pub opt_str : Option String → Json
opt_str none = null
opt_str (some s) = str s

abbrev pub opt_num : Option ℕ → Json
opt_num none = null
opt_num (some n) = num n

abbrev pub strings : List String → Items
strings [] = nil
strings (s ∷ ss) = cons (str s) (strings ss)

abbrev pub entries : List (String × Json) → Fields
entries [] = end
entries ((k, v) ∷ rest) = field k v (entries rest)

abbrev pub object : List (String × Json) → Json
object kvs = obj (entries kvs)

-- `d.get(key)` of a mapping that has no key twice, with None for what is not there.
unfoldable pub field_of : String → Fields → Option Json
field_of k end = none
field_of k (field l v rest) = let below = field_of k rest in if l == k then some v else below

abbrev pub or_null : Option Json → Json
or_null none = null
or_null (some v) = v

abbrev pub get : String → Fields → Json
get k fs = or_null (field_of k fs)

abbrev pub elements : Items → List Json
elements nil = []
elements (cons x xs) = x ∷ elements xs

abbrev pub keys : Fields → List String
keys end = []
keys (field k v rest) = k ∷ keys rest

-- `value in (None, "")`
abbrev pub is_blank : Json → Bool
is_blank null = true
is_blank (str s) = s == ""
is_blank _ = false

-- Python's `bool(value)`.
abbrev pub is_truthy : Json → Bool
is_truthy null = false
is_truthy (bool b) = b
is_truthy (num n) = not (eqb n 0)
is_truthy (negative _) = true
is_truthy (str s) = not (s == "")
is_truthy (arr nil) = false
is_truthy (arr _) = true
is_truthy (obj end) = false
is_truthy (obj _) = true
