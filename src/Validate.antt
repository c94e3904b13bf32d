-- ===== src/Validate.antt =====
-- internal/validate/validate.go: the names of interfaces and the labels of virtual machines, as
-- texts of bytes (a byte from 128 up is no part of either).
use app_runner.Prelude.{
  ◌++◌, ◌⊎◌, ap, ◌∙◌, ℕ, ◌≤◌, ◌≡◌, ◌≢◌, ◌↔◌, Bool, true, false, ◌&&◌, ◌||◌, not, Option, none, some,
  [], ◌∷◌, ltb, leb, ◌==◌, if◌then◌else◌, Text, same, codes, length, All, arith, refl,
}

pub is_alphanumeric : ℕ → Bool
is_alphanumeric c =
    (leb b'a' c && leb c b'z') || (leb b'A' c && leb c b'Z') || (leb b'0' c && leb c b'9')

-- A byte of `[A-Za-z0-9_.-]`.
pub is_name_byte : ℕ → Bool
unfolding is_alphanumeric
is_name_byte c = is_alphanumeric c || c == b'_' || c == b'.' || c == b'-'

-- A byte of a DNS label.
pub is_label_byte : ℕ → Bool
unfolding is_alphanumeric
is_label_byte c = is_alphanumeric c || c == b'-'

unfoldable pub all_bytes : (ℕ → Bool) → Text → Bool
all_bytes p [] = true
all_bytes p (c ∷ t) = p c && all_bytes p t

-- `^[A-Za-z0-9][A-Za-z0-9_.-]{0,14}$`
pub matches_name : Text → Bool
unfolding all_bytes is_name_byte
matches_name [] = false
matches_name (c ∷ t) = is_alphanumeric c && leb (length t) 14 && all_bytes is_name_byte t

pub data NameError : Type 0 where
  bad_name loopback : NameError

unfoldable pub interface_name : Text → Option NameError
unfolding matches_name
interface_name name =
    if not (matches_name name)
    then some bad_name
    else if same name (codes "lo")
    then some loopback
    else none

pub data LabelError : Type 0 where
  bad_size edge_hyphen bad_byte : LabelError

pub last_byte : ℕ → Text → ℕ
last_byte c [] = c
last_byte c (d ∷ t) = last_byte d t

unfoldable pub dns_label : Text → Option LabelError
unfolding last_byte
dns_label [] = some bad_size
dns_label (c ∷ t) =
    if ltb 63 (length (c ∷ t))
    then some bad_size
    else if c == b'-' || last_byte c t == b'-'
    then some edge_hyphen
    else if all_bytes is_label_byte (c ∷ t)
    then none
    else some bad_byte

-- An ASCII letter, a digit or a hyphen.
abbrev pub IsLabelByte : ℕ → Type 0
IsLabelByte b = ((97 ≤ b) × (b ≤ 122)) ⊎ ((65 ≤ b) × (b ≤ 90)) ⊎ ((48 ≤ b) × (b ≤ 57)) ⊎ (b ≡ 45)

-- 1 to 63 letters, digits and hyphens, with a hyphen (45) at neither end.
abbrev pub IsLabel : Text → Type 0
IsLabel t =
    (1 ≤ length t)
    × (length t ≤ 63)
    × All IsLabelByte t
    × ((u : Text) → t ≢ 45 ∷ u)
    × ((u : Text) → t ≢ u ++ 45 ∷ [])

IsLabelByte-iff : (b : ℕ) → (is_label_byte b ≡ true) ↔ IsLabelByte b
unfolding is_label_byte is_alphanumeric
IsLabelByte-iff b = ground arith

all_bytes-All : (t : Text) → (all_bytes is_label_byte t ≡ true) ↔ All IsLabelByte t
unfolding all_bytes
all_bytes-All [] = (λ _. tt, λ _. refl)
all_bytes-All (c ∷ t) = (
  λ h. ((IsLabelByte-iff c).0 (ground arith), (all_bytes-All t).0 (ground arith)),
  λ h. ground (arith, (IsLabelByte-iff c).1 h.0, (all_bytes-All t).1 h.1),
)

ends_in-last_byte : (c : ℕ) (t : Text) → (u : Text) × (c ∷ t ≡ u ++ last_byte c t ∷ [])
unfolding last_byte
ends_in-last_byte c [] = ([], refl)
ends_in-last_byte c (d ∷ t) = let (u, e) = ends_in-last_byte d t in (c ∷ u, ap (λ s. c ∷ s) e)

last_byte-ends_in : (c d : ℕ) (t u : Text) → c ∷ t ≡ u ++ d ∷ [] → last_byte c t ≡ d
unfolding last_byte
last_byte-ends_in c d [] [] h = cc
last_byte-ends_in c d (x ∷ t) [] h = cc
last_byte-ends_in c d [] (y ∷ []) h = cc
last_byte-ends_in c d [] (y ∷ z ∷ u) h = cc
last_byte-ends_in c d (x ∷ t) (y ∷ u) h = last_byte-ends_in x d t u cc

-- DNSLabel accepts exactly the texts of 1 to 63 ASCII letters, digits and hyphens that neither begin
-- nor end with a hyphen.
pub dns_label_iff : (t : Text) → (dns_label t ≡ none) ↔ IsLabel t
unfolding dns_label
dns_label_iff [] = (λ h. cc, λ h. absurd (omega arith))
dns_label_iff (c ∷ t) = (
  λ h. (
    omega arith,
    ground arith,
    (all_bytes-All (c ∷ t)).0 (ground arith),
    λ u e. ground arith,
    λ u e. let l = last_byte-ends_in c 45 t u e in absurd (ground arith),
  ),
  λ (_, n, a, b, e).
      let (u, w) = ends_in-last_byte c t in
      let bytes = (all_bytes-All (c ∷ t)).1 a in
      let starts : c ≢ 45 = λ x. b t (ap (λ y. y ∷ t) x) in
      let ends : last_byte c t ≢ 45 = λ x. e u (w ∙ ap (λ y. u ++ y ∷ []) x) in ground arith,
)
