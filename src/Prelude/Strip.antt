-- ===== src/Prelude/Strip.antt =====
-- Python's `str.strip` with no argument: what `str.isspace` accepts goes at both ends.
use Prim.Native.Nat.{ℕ}
use Prim.Native.Char.{code}
use Prim.Native.String.{String, [], ◌∷◌}
use mathlib.Core.Path.{◌≡◌, refl}
use mathlib.Core.Bool.{Bool, ◌&&◌, ◌||◌}
use agent_workflow_kernel.Prelude.Tests.{leb, eqb, if◌then◌else◌}

abbrev within : ℕ → ℕ → ℕ → Bool
within lo hi c = leb lo c && leb c hi

is_space : ℕ → Bool
is_space c =
    within 9 13 c
    || within 28 32 c
    || within 8192 8202 c
    || within 8232 8233 c
    || eqb c 133
    || eqb c 160
    || eqb c 5760
    || eqb c 8239
    || eqb c 8287
    || eqb c 12288

lstrip : String → String
lstrip [] = []
lstrip (c ∷ s) = let rest = lstrip s in if is_space (code c) then rest else c ∷ s

rstrip : String → String
rstrip [] = []
rstrip (c ∷ s) = elim (rstrip s) [
  | [] ↦ if is_space (code c) then [] else c ∷ []
  | d ∷ t ↦ c ∷ d ∷ t
]

unfoldable pub strip : String → String
unfolding is_space lstrip rstrip
strip s = rstrip (lstrip s)

strip_example : strip "  two words " ≡ "two words"
unfolding strip
strip_example = refl
