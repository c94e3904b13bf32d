-- ===== src/Machines/Weights.antt =====
-- Sums over the machines: what the changes of a list do to them.
use app_runner.Prelude.{
  ℕ, ◌+◌, ◌≤◌, ◌≡◌, refl, ap, Bool, false, some, List, [], ◌∷◌, ◌++◌, if◌then◌else◌, Text,
  Text-discrete, same, fold, exists, Assoc, lookup, delete, arith, inl, inr,
}
use app_runner.Vm.{VirtualMachine, Nic, has_mac_address}
use app_runner.Machines.{at_rest, Manager, find, change, remove, mac_address_in_use}
use app_runner.Machines.Devices.{device, replace_device, drop_device}
use app_runner.Machines.Moves.{Settled, view, count, tally, mac_weight, total}

module _ {A : Type 0} where
  pub exists-count : (q : A → Bool) (xs : List A) → exists q xs ≡ false → count q xs ≡ 0
  unfolding count
  exists-count q [] h = refl
  exists-count q (x ∷ xs) h = ground (arith, exists-count q xs)

  pub count-append : (q : A → Bool) (xs ys : List A) → count q (xs ++ ys) ≡ count q xs + count q ys
  unfolding count
  count-append q [] ys = omega arith
  count-append q (x ∷ xs) ys = omega (arith, count-append q xs ys)

  pub tally-append : (f : A → ℕ) (xs ys : List A) → tally f (xs ++ ys) ≡ tally f xs + tally f ys
  unfolding tally
  tally-append f [] ys = omega arith
  tally-append f (x ∷ xs) ys = omega (arith, tally-append f xs ys)

  -- Where no member passes a test, and the others weigh nothing, the sum is 0.
  pub exists-tally :
      (q : A → Bool) (f : A → ℕ)
      → ((x : A) → q x ≡ false → f x ≡ 0)
      → (xs : List A) → exists q xs ≡ false
      → tally f xs ≡ 0
  unfolding tally
  exists-tally q f z [] h = refl
  exists-tally q f z (x ∷ xs) h = ground (arith, exists-tally q f z xs, z x)

  -- The device that is replaced is counted no more, and the new one is.
  pub count-replace_device :
      (id_of : A → Text) (q : A → Bool) (id : Text) (d e : A) (xs : List A)
      → device id_of id xs ≡ some d
      → count q (replace_device id_of id e xs) + (if q d then 1 else 0)
        ≡ count q xs + (if q e then 1 else 0)
  unfolding count device replace_device
  count-replace_device id_of q id d e [] h = cc
  count-replace_device id_of q id d e (x ∷ xs) h = elim (Text-discrete (id_of x) id) [
    | yes y ↦ ground arith
    | no n ↦ ground (arith, count-replace_device id_of q id d e xs)
  ]

  pub device-id :
      (id_of : A → Text) (id : Text) (d : A) (xs : List A)
      → device id_of id xs ≡ some d
      → id_of d ≡ id
  unfolding device
  device-id id_of id d [] h = cc
  device-id id_of id d (x ∷ xs) h = elim (Text-discrete (id_of x) id) [
    | yes y ↦ ground arith
    | no n ↦ device-id id_of id d xs (ground arith)
  ]

  pub count-drop_device :
      (id_of : A → Text) (q : A → Bool) (id : Text) (xs : List A)
      → count q (drop_device id_of id xs) ≤ count q xs
  unfolding count drop_device
  count-drop_device id_of q id [] = omega arith
  count-drop_device id_of q id (x ∷ xs) = ground (arith, count-drop_device id_of q id xs)

pub find-id :
    (id : Text) (v : VirtualMachine) (vs : List VirtualMachine) → find id vs ≡ some v → v.id ≡ id
unfolding find
find-id id v [] h = cc
find-id id v (x ∷ xs) h = elim (Text-discrete x.id id) [
  | yes y ↦ ground arith
  | no n ↦ find-id id v xs (ground arith)
]

-- A weight that rest does not change is what it was when machines come to rest.
pub Settled-tally :
    (f : VirtualMachine → ℕ)
    → ((v : VirtualMachine) → f (at_rest v) ≡ f v)
    → (vs ws : List VirtualMachine) → Settled vs ws
    → tally f ws ≡ tally f vs
unfolding tally
Settled-tally f r [] [] s = refl
Settled-tally f r [] (w ∷ ws) s = absurd s
Settled-tally f r (v ∷ vs) [] s = absurd s
Settled-tally f r (v ∷ vs) (w ∷ ws) (inl e, s) = omega (arith, ap f e, Settled-tally f r vs ws s)
Settled-tally f r (v ∷ vs) (w ∷ ws) (inr e, s) =
    omega (arith, ap f e, r v, Settled-tally f r vs ws s)

-- A machine's share of the sum.
pub find-tally :
    (f : VirtualMachine → ℕ) (id : Text) (v : VirtualMachine) (vs : List VirtualMachine)
    → find id vs ≡ some v
    → f v ≤ tally f vs
unfolding tally find
find-tally f id v [] h = cc
find-tally f id v (x ∷ xs) h = ground (arith, find-tally f id v xs)

pub change-tally :
    (f : VirtualMachine → ℕ) (id : Text) (v w : VirtualMachine) (vs : List VirtualMachine)
    → find id vs ≡ some v
    → tally f (change id w vs) + f v ≡ tally f vs + f w
unfolding tally find change
change-tally f id v w [] h = cc
change-tally f id v w (x ∷ xs) h = ground (arith, change-tally f id v w xs)

pub remove-tally :
    (f : VirtualMachine → ℕ) (id : Text) (vs : List VirtualMachine)
    → tally f (remove id vs) ≤ tally f vs
unfolding tally remove
remove-tally f id [] = omega arith
remove-tally f id (x ∷ xs) = ground (arith, remove-tally f id xs)

module _ {A : Type 0} where
  pub delete-tally :
      (f : A → ℕ) (k : Text) (es : Assoc A)
      → tally (λ e. f e.1) (delete k es) ≤ tally (λ e. f e.1) es
  unfolding tally delete
  delete-tally f k [] = omega arith
  delete-tally f k ((j, a) ∷ es) = ground (arith, delete-tally f k es)

  pub lookup-tally :
      (f : A → ℕ) (k : Text) (a : A) (es : Assoc A)
      → lookup k es ≡ some a
      → tally (λ e. f e.1) (delete k es) + f a ≤ tally (λ e. f e.1) es
  unfolding tally delete lookup
  lookup-tally f k a [] h = cc
  lookup-tally f k a ((j, b) ∷ es) h = ground (arith, lookup-tally f k a es, delete-tally f k es)

module _ {Host : Type 0} where
  -- An address that is not in use is nobody's.
  pub mac_address_in_use-total :
      (mac : Text) (m : Manager Host)
      → mac_address_in_use mac m ≡ false
      → total (mac_weight (fold mac)) (view m) ≡ 0
  unfolding mac_address_in_use total mac_weight has_mac_address
  mac_address_in_use-total mac m h =
      let weigh = exists-count (λ (n : Nic). same (fold n.mac_address) (fold mac)) in
      ground (
        arith,
        exists-tally (has_mac_address mac) (mac_weight (fold mac)) (λ v. weigh v.nics) m.machines,
        exists-tally (λ e. has_mac_address mac e.1) (λ e. mac_weight (fold mac) e.1)
            (λ e. weigh e.1.nics) m.creating,
      )
