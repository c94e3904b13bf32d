-- ===== src/Prelude/Bytes.antt =====
-- Text as its bytes. `strings.ToLower`, `strings.EqualFold` and `strings.TrimSpace` are those of
-- ASCII text.
use Prim.Native.Nat.{ℕ, ◌+◌}
use Prim.Native.Char.{code}
use Prim.Native.String.{String}
use mathlib.Core.Bool.{Bool, true, false, ◌&&◌, ◌||◌}
use mathlib.Core.Path.{◌≡◌, refl}
use mathlib.Core.List.{List, [], ◌∷◌, map, reverse}
use native.Mathlib.Decide.{ℕ_discrete}
use app_runner.Prelude.Tests.{leb, ◌==◌, if◌then◌else◌}

abbrev pub Text : Type 0
Text = List ℕ

unfoldable pub Text-discrete : Discrete Text
unfolding ℕ_discrete
Text-discrete = hlevel ℕ_discrete

-- Go's `==` on strings.
abbrev pub same : Text → Text → Bool
same a b = elim (Text-discrete a b) [ yes e ↦ true | no n ↦ false ]

-- A literal's bytes, for ASCII literals.
abbrev pub codes : String → Text
codes String.[] = []
codes (String.◌∷◌ c s) = code c ∷ codes s

unfoldable pub to_lower : ℕ → ℕ
to_lower c = if leb 65 c && leb c 90 then c + 32 else c

-- `strings.ToLower`
unfoldable pub fold : Text → Text
unfolding to_lower
fold t = map to_lower t

-- `strings.EqualFold`
abbrev pub equal_fold : Text → Text → Bool
equal_fold a b = same (fold a) (fold b)

unfoldable pub is_space : ℕ → Bool
is_space c = c == 32 || (leb 9 c && leb c 13)

unfoldable pub drop_spaces : Text → Text
unfolding is_space
drop_spaces [] = []
drop_spaces (c ∷ t) = let rest = drop_spaces t in if is_space c then rest else c ∷ t

-- `strings.TrimSpace`
unfoldable pub trim_space : Text → Text
unfolding drop_spaces
trim_space t = reverse (drop_spaces (reverse (drop_spaces t)))

lower : fold (codes "AbZ9:f") ≡ codes "abz9:f"
unfolding fold
lower = refl

same_letters : equal_fold (codes "AB:c") (codes "aB:C") ≡ true
unfolding fold Text-discrete
same_letters = refl
