-- ===== src/Dns.antt =====
-- The settings of a bridge's DNS server (internal/dns/dns.go: NormalizeSuffix, DefaultSuffix,
-- NormalizeForwarders).
pub mod Forwarders
use app_runner.Prelude.{
  ℕ, Bool, true, false, ◌&&◌, ◌||◌, not, Option, none, some, List, [], ◌∷◌, ◌++◌, if◌then◌else◌,
  ltb, ◌==◌, Text, same, codes, fold, trim_space, length, exists,
}
use app_runner.Net.{Addr, same_addr}
use app_runner.Validate.{LabelError, dns_label}

-- `strings.Split` at the dots: the first piece, and the rest.
pub split_from : Text → Text → List Text
split_from piece [] = piece ∷ []
split_from piece (c ∷ t) =
    let whole = split_from (piece ++ c ∷ []) t in
    let next = split_from [] t in if c == b'.' then piece ∷ next else whole

unfoldable pub split_labels : Text → List Text
unfolding split_from
split_labels t = split_from [] t

-- `strings.TrimSuffix(text, ".")`
pub trim_dot : Text → Text
trim_dot [] = []
trim_dot (c ∷ []) = if c == b'.' then [] else c ∷ []
trim_dot (c ∷ d ∷ t) = c ∷ trim_dot (d ∷ t)

pub is_label : Text → Bool
is_label t = elim (dns_label t) [ none ↦ true | some e ↦ false ]

-- `NormalizeSuffix`, `none` where it fails.
unfoldable pub normalize_suffix : Text → Option Text
unfolding split_labels trim_dot is_label
normalize_suffix t =
    let suffix = trim_dot (fold (trim_space t)) in
    if length suffix == 0
      || ltb 253 (length suffix)
      || exists (λ l. not (is_label l)) (split_labels suffix)
    then none
    else some suffix

unfoldable pub default_suffix : Text → Text
default_suffix bridge = fold bridge ++ codes ".internal"

abbrev pub port : ℕ
port = 53

abbrev pub is_blank_text : Text → Bool
is_blank_text [] = true
is_blank_text (c ∷ t) = false

-- `parse` is parseForwarder and `print` the text of an address with a port: both only call netip.
module _ (parse : Text → Option (Addr × ℕ)) (print : Addr × ℕ → Text) (server : Addr) where
  -- What one forwarder adds to the result; `none` where it is refused.
  pub add_forwarder : Option (Addr × ℕ) → List Text → Option (List Text)
  add_forwarder none found = none
  add_forwarder (some (a, p)) found =
      if same_addr a server && p == port
      then none
      else if exists (λ f. same f (print (a, p))) found
      then some found
      else some (found ++ print (a, p) ∷ [])

  pub forwarders_from : List Text → List Text → Option (List Text)
  unfolding add_forwarder
  forwarders_from found [] = some found
  forwarders_from found (value ∷ values) =
      let text = trim_space value in
      elim (is_blank_text text) [
        | true ↦ forwarders_from found values
        | false ↦ elim (add_forwarder (parse text) found) [
          | none ↦ none
          | some more ↦ forwarders_from more values
        ]
      ]

  pub bounded : Option (List Text) → Option (List Text)
  bounded none = none
  bounded (some fs) = if length fs == 0 || ltb 8 (length fs) then none else some fs

  -- `NormalizeForwarders`, `none` where it fails.
  unfoldable pub normalize_forwarders : List Text → Option (List Text)
  unfolding forwarders_from bounded
  normalize_forwarders values = bounded (forwarders_from [] values)
