-- ===== src/Dhcp/Packet/Keys.antt =====
-- The keys under which clients are kept.
use app_runner.Prelude.{
  ℕ, ◌/◌, ◌%◌, ◌<◌, ◌≡◌, ◌≢◌, ◌⊎◌, inl, inr, ap, refl, List, [], ◌∷◌, All, arith, Text, fold,
}
use app_runner.Dhcp.Packet.{Request, hex_digit, hex, client_key_from, client_key}

hex_digit_injective : (a b : ℕ) → a < 16 → b < 16 → hex_digit a ≡ hex_digit b → a ≡ b
unfolding hex_digit
hex_digit_injective a b p q e = ground arith

abbrev pub Bytes : List ℕ → Type 0
Bytes = All λ b. b < 256

hex_injective : (xs ys : List ℕ) → Bytes xs → Bytes ys → hex xs ≡ hex ys → xs ≡ ys
unfolding hex
hex_injective [] [] p q e = refl
hex_injective [] (y ∷ ys) p q e = cc
hex_injective (x ∷ xs) [] p q e = cc
hex_injective (x ∷ xs) (y ∷ ys) p q e = ground (
  arith,
  hex_digit_injective (x / 16) (y / 16),
  hex_digit_injective (x % 16) (y % 16),
  hex_injective xs ys p.1 q.1,
)

abbrev first : Text → ℕ
first [] = 0
first (c ∷ t) = c

client_key_from_injective :
    (xs ys : List ℕ) (g h : Text)
    → Bytes xs
    → Bytes ys
    → client_key_from xs g ≡ client_key_from ys h
    → (xs ≡ ys) × ((xs ≢ []) ⊎ (fold g ≡ fold h))
unfolding client_key_from
client_key_from_injective [] [] g h p q e = (refl, inr (ground arith))
client_key_from_injective [] (y ∷ ys) g h p q e = absurd (omega (arith, ap first e))
client_key_from_injective (x ∷ xs) [] g h p q e = absurd (omega (arith, ap first e))
client_key_from_injective (x ∷ xs) (y ∷ ys) g h p q e =
    (hex_injective (x ∷ xs) (y ∷ ys) p q (ground arith), inl (λ n. cc))

-- Two requests have the same key only if they carry the same client identifier, a list of bytes,
-- and, where that is missing, the same hardware address up to case.
pub client_key_injective :
    (q s : Request)
    → Bytes q.client_identifier
    → Bytes s.client_identifier
    → client_key q ≡ client_key s
    → (q.client_identifier ≡ s.client_identifier)
      × ((q.client_identifier ≢ []) ⊎ (fold q.hardware_address ≡ fold s.hardware_address))
unfolding client_key
client_key_injective q s p r e =
    client_key_from_injective q.client_identifier s.client_identifier _ _ p r e
