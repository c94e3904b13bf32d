-- ===== src/Vm/Bridges.antt =====
-- The bridges of a machine are those of its interfaces.
use app_runner.Prelude.{
  ◌≡◌, ◌≢◌, refl, true, false, not, ◌&&◌, List, [], ◌∷◌, ◌++◌, if◌then◌else◌, Text, Text-discrete,
  In, inl, inr, arith, if_cases, if_intro, subst, sym,
}
use app_runner.Vm.{
  Nic, bridge_mode, VirtualMachine, is_bridge_mode, is_blank, contains_text, bridges_from, bridges,
  uses_bridge,
}

contains-before :
    (b c : Text) (bs : List Text)
    → contains_text b bs ≡ true
    → contains_text b (bs ++ c ∷ []) ≡ true
unfolding contains_text
contains-before b c [] h = cc
contains-before b c (x ∷ bs) h = ground (arith, contains-before b c bs)

contains-last : (b : Text) (bs : List Text) → contains_text b (bs ++ b ∷ []) ≡ true
unfolding contains_text
contains-last b [] = ground arith
contains-last b (x ∷ bs) = ground (arith, contains-last b bs)

-- The bridges found after one more interface.
abbrev grown : List Text → Nic → List Text
grown found n =
    if is_bridge_mode n.mode
      && not (is_blank n.bridge_name)
      && not (contains_text n.bridge_name found)
    then found ++ n.bridge_name ∷ []
    else found

found_stays :
    (b : Text) (ns : List Nic) (found : List Text)
    → contains_text b found ≡ true
    → contains_text b (bridges_from found ns) ≡ true
unfolding bridges_from
found_stays b [] found h = h
found_stays b (n ∷ ns) found h = found_stays b ns (grown found n) (
    if_intro (λ (l : List Text). contains_text b l ≡ true) _
      (contains-before b n.bridge_name found h) h)

grown-contains :
    (found : List Text) (n : Nic)
    → is_bridge_mode n.mode ≡ true
    → is_blank n.bridge_name ≡ false
    → contains_text n.bridge_name (grown found n) ≡ true
grown-contains found n m k =
    if_cases (λ (l : List Text). contains_text n.bridge_name l ≡ true)
      (is_bridge_mode n.mode
        && not (is_blank n.bridge_name)
        && not (contains_text n.bridge_name found))
      (λ _. contains-last n.bridge_name found) (λ h. ground arith)

bridges_from-In :
    (n : Nic) (ns : List Nic) (found : List Text)
    → In n ns
    → is_bridge_mode n.mode ≡ true
    → is_blank n.bridge_name ≡ false
    → contains_text n.bridge_name (bridges_from found ns) ≡ true
unfolding bridges_from
bridges_from-In n [] found i m k = absurd i
bridges_from-In n (x ∷ ns) found (inl e) m k =
    subst (λ (y : Nic). contains_text n.bridge_name (bridges_from (grown found y) ns) ≡ true) e
      (found_stays n.bridge_name ns (grown found n) (grown-contains found n m k))
bridges_from-In n (x ∷ ns) found (inr i) m k = bridges_from-In n ns (grown found x) i m k

pub not_blank : (b : Text) → b ≢ [] → is_blank b ≡ false
not_blank [] h = absurd (h refl)
not_blank (c ∷ b) h = refl

contains-In : (b : Text) (bs : List Text) → contains_text b bs ≡ true → In b bs
unfolding contains_text
contains-In b [] h = cc
contains-In b (x ∷ bs) h = elim (Text-discrete x b) [
  | yes e ↦ inl (sym e)
  | no n ↦ inr (contains-In b bs (ground arith))
]

-- An interface that is bridged to a named bridge puts that bridge among the machine's.
pub nic-bridges :
    (v : VirtualMachine) (n : Nic)
    → In n v.nics
    → n.mode ≡ bridge_mode
    → n.bridge_name ≢ []
    → In n.bridge_name (bridges v)
unfolding bridges
nic-bridges v n i m k =
    contains-In n.bridge_name (bridges v)
      (bridges_from-In n v.nics [] i (rw m refl) (not_blank n.bridge_name k))

pub nic-uses_bridge :
    (v : VirtualMachine) (n : Nic)
    → In n v.nics
    → n.mode ≡ bridge_mode
    → n.bridge_name ≢ []
    → uses_bridge n.bridge_name v ≡ true
unfolding uses_bridge bridges
nic-uses_bridge v n i m k = bridges_from-In n v.nics [] i (rw m refl) (not_blank n.bridge_name k)
