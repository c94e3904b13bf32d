-- ===== src/Prelude/Maps.antt =====
-- A Go map with text keys as an association list. A `range` over the map is the list from left to
-- right; Go leaves that order open, and the theorems hold for every order of the list.
use mathlib.Core.Path.{◌≡◌, refl}
use mathlib.Core.List.{List, [], ◌∷◌}
use mathlib.Core.Option.{Option, none, some}
use native.Mathlib.Omega.{arith}
use app_runner.Prelude.Tests.{if◌then◌else◌}
use app_runner.Prelude.Bytes.{Text, Text-discrete, same}
use app_runner.Prelude.Lists.{All, In, keep, All-keep}
use mathlib.Core.Bool.{true, false, not}
use mathlib.Core.Logic.{inl, inr}

abbrev pub Assoc {ℓ} : Type ℓ → Type ℓ
Assoc V = List (Text × V)

module _ {ℓ} {V : Type ℓ} where
  unfoldable pub lookup : Text → Assoc V → Option V
  lookup k [] = none
  lookup k ((j, v) ∷ m) = if same j k then some v else lookup k m

  unfoldable pub delete : Text → Assoc V → Assoc V
  delete k [] = []
  delete k ((j, v) ∷ m) = let rest = delete k m in if same j k then rest else (j, v) ∷ rest

  unfoldable pub insert : Text → V → Assoc V → Assoc V
  unfolding delete
  insert k v m = (k, v) ∷ delete k m

  pub lookup-delete :
      (k j : Text) (m : Assoc V) → lookup j (delete k m) ≡ (if same k j then none else lookup j m)
  unfolding lookup delete
  lookup-delete k j [] = ground arith
  lookup-delete k j ((i, w) ∷ m) = ground (arith, lookup-delete k j m)

  pub lookup-insert :
      (k j : Text) (v : V) (m : Assoc V)
      → lookup j (insert k v m) ≡ (if same k j then some v else lookup j m)
  unfolding lookup insert
  lookup-insert k j v m = ground (arith, lookup-delete k j m)

  -- To delete a key is to keep the other entries.
  pub delete-eq-keep : (k : Text) (m : Assoc V) → delete k m ≡ keep (λ e. not (same e.0 k)) m
  unfolding delete
  delete-eq-keep k [] = refl
  delete-eq-keep k ((j, v) ∷ m) = ground (arith, delete-eq-keep k m)

  pub All-delete {κ} :
      (P : Text × V → Type κ) (k : Text) (m : Assoc V) → All P m → All P (delete k m)
  All-delete P k m h = rw (delete-eq-keep k m) (All-keep P _ m h)

  pub lookup-insert_self : (k : Text) (v : V) (m : Assoc V) → lookup k (insert k v m) ≡ some v
  unfolding lookup insert
  lookup-insert_self k v m = ground arith

  pub All-delete-insert {κ} :
      (P : Text × V → Type κ) (k : Text) (v : V) (m : Assoc V)
      → All P m
      → All P (delete k (insert k v m))
  unfolding insert
  All-delete-insert P k v m h =
      elim (Text-discrete k k)
        as (λ b. All P (
          if (elim b [ yes e ↦ true | no n ↦ false ])
          then delete k (delete k m)
          else (k, v) ∷ delete k (delete k m))) [
            | yes e ↦ All-delete P k _ (All-delete P k m h)
            | no n ↦ absurd (n refl)
          ]

module _ {V : Type 0} where
  -- What `lookup` finds is an entry of the map.
  pub In-lookup : (k : Text) (m : Assoc V) (v : V) → lookup k m ≡ some v → In (k, v) m
  unfolding lookup
  In-lookup k [] v e = cc
  In-lookup k ((j, w) ∷ m) v e = elim (Text-discrete j k) [
    | yes p ↦ inl (ground arith)
    | no n ↦ inr (In-lookup k m v (ground arith))
  ]
