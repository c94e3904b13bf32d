-- ===== src/Dhcp/Lease/Select.antt =====
-- The lease that renewHardwareLeaseLocked picks.
use app_runner.Prelude.{
  ◌≡◌, ◌⊎◌, inl, inr, sym, subst, ap, ◌∙◌, refl, Bool, true, false, Option, none, [], ◌∷◌, Text,
  All, In, exists, is_some, arith, if◌then◌else◌,
}
use app_runner.Net.{Addr}
use app_runner.Dhcp.Lease.{Lease, Leases, has_hardware, better, select}

module _ (key hw : Text) (requested : Option Addr) where
  abbrev pub Fitting : Text × Lease → Type 0
  Fitting e = (has_hardware hw e ≡ true) × (is_some e.1.address ≡ true)

  -- It is the one that was picked before, or an entry of the table with that hardware address.
  abbrev pub Picked : Text × Lease → Leases → Text × Lease → Type 0
  Picked sel m e = (e ≡ sel) ⊎ (In e m × Fitting e)

  -- One round of the loop.
  select-cons :
      (sel e : Text × Lease) (rest : Leases)
      → (((has_hardware hw e ≡ false) ⊎ (e.1.address ≡ none))
          × (select key hw requested sel (e ∷ rest) ≡ select key hw requested sel rest))
        ⊎ (Fitting e × (select key hw requested sel (e ∷ rest) ≡ e))
        ⊎ (Fitting e
            × (select key hw requested sel (e ∷ rest)
                ≡ select key hw requested (if better key hw requested sel e then e else sel) rest))
  unfolding select
  select-cons sel (c, l) rest = ground arith

  weaken : (sel e f : Text × Lease) (m : Leases) → Picked sel m f → Picked sel (e ∷ m) f
  weaken sel e f m (inl p) = inl p
  weaken sel e f m (inr (i, h)) = inr (inr i, h)

  replaced :
      (b : Bool) (sel e f : Text × Lease) (m : Leases)
      → Fitting e
      → Picked (if b then e else sel) m f
      → Picked sel (e ∷ m) f
  replaced true sel e f m h (inl p) = inr (inl p, subst Fitting (sym p) h)
  replaced false sel e f m h (inl p) = inl p
  replaced b sel e f m h (inr (i, g)) = inr (inr i, g)

  pub select-Picked :
      (sel : Text × Lease) (m : Leases) → Picked sel m (select key hw requested sel m)
  unfolding select
  select-Picked sel [] = inl refl
  select-Picked sel (e ∷ rest) = elim (select-cons sel e rest) [
    | inl (_, p) ↦
        subst (Picked sel (e ∷ rest)) (sym p) (weaken sel e _ rest (select-Picked sel rest))
    | inr (inl (h, p)) ↦ subst (Picked sel (e ∷ rest)) (sym p) (inr (inl refl, h))
    | inr (inr (h, p)) ↦ subst (Picked sel (e ∷ rest)) (sym p) (
        replaced (better key hw requested sel e) sel e _ rest h
          (select-Picked (if better key hw requested sel e then e else sel) rest))
  ]

  abbrev pub Found : Leases → Text × Lease → Type 0
  Found m e = In e m × Fitting e

  better_first : (s : Lease) (e : Text × Lease) → better key hw requested ([], s) e ≡ true
  unfolding better
  better_first s e = ground arith

  from_Picked : (e f : Text × Lease) (m : Leases) → Fitting e → Picked e m f → Found (e ∷ m) f
  from_Picked e f m h (inl p) = (inl p, subst Fitting (sym p) h)
  from_Picked e f m h (inr (i, g)) = (inr i, g)

  -- Where the table has a lease of that hardware address, and every lease has an address, one is
  -- found.
  pub select-Found :
      (s : Lease) (m : Leases)
      → All (λ e. is_some e.1.address ≡ true) m
      → exists (has_hardware hw) m ≡ true
      → Found m (select key hw requested ([], s) m)
  select-Found s [] a h = cc
  select-Found s (e ∷ rest) a h = elim (select-cons ([], s) e rest) [
    | inl (miss, p) ↦
        let (i, g) = select-Found s rest a.1 (ground arith) in
        subst (Found (e ∷ rest)) (sym p) (inr i, g)
    | inr (inl (g, p)) ↦ subst (Found (e ∷ rest)) (sym p) (inl refl, g)
    | inr (inr (g, p)) ↦
        subst (Found (e ∷ rest))
          (sym (
            p
            ∙ ap (λ b. select key hw requested (if b then e else ([], s)) rest) (better_first s e)))
          (from_Picked e _ rest g (select-Picked e rest))
  ]
