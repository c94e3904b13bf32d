-- ===== src/Prelude/Lists.antt =====
-- Lists measured by native numbers, filtered by Boolean tests, and predicates on their members.
use Prim.Native.Nat.{ℕ, zero, suc, ◌+◌, ◌-◌, ◌≤◌}
use mathlib.Core.Path.{◌≡◌, refl, ap}
use mathlib.Core.Logic.{◌⊎◌, inl, inr}
use mathlib.Core.Bool.{Bool, true, false, not}
use mathlib.Core.List.{List, [], ◌∷◌, ◌++◌}
use native.Mathlib.Omega.{arith}
use app_runner.Prelude.Tests.{if◌then◌else◌, Bool-cases, if_cases, if_intro}

module _ {ℓ} {A : Type ℓ} where
  abbrev pub length : List A → ℕ
  length [] = 0
  length (x ∷ xs) = suc (length xs)

  abbrev pub take : ℕ → List A → List A
  take zero xs = []
  take (suc n) [] = []
  take (suc n) (x ∷ xs) = x ∷ take n xs

  abbrev pub drop : ℕ → List A → List A
  drop zero xs = xs
  drop (suc n) [] = []
  drop (suc n) (x ∷ xs) = drop n xs

  -- The members that pass a Boolean test, in order.
  abbrev pub keep : (A → Bool) → List A → List A
  keep p [] = []
  keep p (x ∷ xs) = let rest = keep p xs in if p x then x ∷ rest else rest

  -- Some member passes a Boolean test.
  abbrev pub exists : (A → Bool) → List A → Bool
  exists p [] = false
  exists p (x ∷ xs) = if p x then true else exists p xs

  -- A predicate of every member.
  abbrev pub All {κ} : (A → Type κ) → List A → Type κ
  All P [] = Unit
  All P (x ∷ xs) = P x × All P xs

  pub length-append : (xs ys : List A) → length (xs ++ ys) ≡ length xs + length ys
  length-append [] ys = omega arith
  length-append (x ∷ xs) ys = omega (arith, length-append xs ys)

  pub take-append-drop : (n : ℕ) (xs : List A) → take n xs ++ drop n xs ≡ xs
  take-append-drop zero xs = refl
  take-append-drop (suc n) [] = refl
  take-append-drop (suc n) (x ∷ xs) = ap (◌∷◌ x) (take-append-drop n xs)

  pub length-drop : (n : ℕ) (xs : List A) → length (drop n xs) ≡ length xs - n
  length-drop zero xs = omega arith
  length-drop (suc n) [] = omega arith
  length-drop (suc n) (x ∷ xs) = omega (arith, length-drop n xs)

  pub length-keep-le : (p : A → Bool) (xs : List A) → length (keep p xs) ≤ length xs
  length-keep-le p [] = omega arith
  length-keep-le p (x ∷ xs) = ground (arith, length-keep-le p xs)

-- Membership, with the place kept.
module _ {A : Type 0} where
  abbrev pub In : A → List A → Type 0
  In a [] = ⊥
  In a (x ∷ xs) = (a ≡ x) ⊎ In a xs

module _ {ℓ κ} {A : Type ℓ} (P : A → Type κ) where
  pub All-keep : (p : A → Bool) (xs : List A) → All P xs → All P (keep p xs)
  All-keep p [] h = h
  All-keep p (x ∷ xs) h = elim (p x) as (λ b. All P (if b then x ∷ keep p xs else keep p xs)) [
    | true ↦ (h.0, All-keep p xs h.1)
    | false ↦ All-keep p xs h.1
  ]

  pub All-map {μ} : {Q : A → Type μ} (f : (a : A) → P a → Q a) (xs : List A) → All P xs → All Q xs
  All-map f [] h = tt
  All-map f (x ∷ xs) h = (f x h.0, All-map f xs h.1)

-- What `keep` keeps passes the test.
pub keep_passes {ℓ} : {A : Type ℓ} (p : A → Bool) (xs : List A) → All (λ a. p a ≡ true) (keep p xs)
keep_passes p [] = tt
keep_passes p (x ∷ xs) = elim (Bool-cases (p x)) [
  | inl e ↦ rw (e, if◌then◌else◌) (e, keep_passes p xs)
  | inr e ↦ rw (e, if◌then◌else◌) (keep_passes p xs)
]

module _ {ℓ} {A : Type 0} (P : A → Type ℓ) where
  pub All-In : {a : A} (xs : List A) → All P xs → In a xs → P a
  All-In [] h m = absurd m
  All-In (x ∷ xs) h (inl e) = rw e h.0
  All-In (x ∷ xs) h (inr m) = All-In xs h.1 m

pub exists-In :
    {A : Type 0} (p : A → Bool) {a : A} (xs : List A) → p a ≡ true → In a xs → exists p xs ≡ true
exists-In p [] h i = absurd i
exists-In p (x ∷ xs) h (inl e) = rw (← e, h)
exists-In p (x ∷ xs) h (inr i) = ground (arith, exists-In p xs h i)

-- A member that passes the test is kept.
pub In-keep :
    {A : Type 0} (p : A → Bool) {a : A} (xs : List A) → p a ≡ true → In a xs → In a (keep p xs)
In-keep p [] h i = absurd i
In-keep p {a} (x ∷ xs) h (inl e) = rw (← e, h, if◌then◌else◌) (inl refl)
In-keep p {a} (x ∷ xs) h (inr i) = if_intro (In a) (p x) (inr (In-keep p xs h i)) (In-keep p xs h i)

-- What is kept was there, and passes the test.
pub In-keep_inv :
    {A : Type 0} (p : A → Bool) {a : A} (xs : List A) → In a (keep p xs) → In a xs × (p a ≡ true)
In-keep_inv p {a} [] i = absurd i
In-keep_inv p {a} (x ∷ xs) i =
    let deeper : In a (keep p xs) → In a (x ∷ xs) × (p a ≡ true) =
      λ j. let (k, h) = In-keep_inv p xs j in (inr k, h) in
    if_cases (λ ys. In a ys → In a (x ∷ xs) × (p a ≡ true)) (p x)
      (λ e i. elim i [ inl q ↦ (inl q, rw (q, e) refl) | inr j ↦ deeper j ]) (λ _ j. deeper j) i

pub keep_all :
    {A : Type 0} (p : A → Bool) (xs : List A) → exists (λ a. not (p a)) xs ≡ false → keep p xs ≡ xs
keep_all p [] h = refl
keep_all p (x ∷ xs) h = ground (arith, keep_all p xs)

pub exists_none :
    {A : Type 0} (p : A → Bool) {a : A} (xs : List A) → exists p xs ≡ false → In a xs → p a ≡ false
exists_none p [] h i = absurd i
exists_none p (x ∷ xs) h (inl e) = rw e (ground arith)
exists_none p (x ∷ xs) h (inr i) = exists_none p xs (ground arith) i
