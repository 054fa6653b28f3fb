-- ===== src/Models/TypedText.antt =====
-- internal/models/models.go: device addresses and phone numbers as users type them.
pub mod Canonical
use router_billing.Prelude.{
  ℕ, suc, zero, Bool, true, false, ◌&&◌, ◌||◌, not, Option, none, some, List, [], ◌∷◌, map, Text,
  length, is_empty, all, keep, leb, ◌==◌, if◌then◌else◌,
}
use router_billing.Prelude.Texts.{trim_space, to_upper, between}
use router_billing.Models.Passwords.{is_digit}
use router_billing.Firewall.{is_hex}

-- `[:-]`
abbrev pub is_sep : ℕ → Bool
is_sep c = c == b':' || c == b'-'

-- `[:-]?`; a separator is no hex digit, so that nothing else can match it.
abbrev pub skip_sep : Text → Text
skip_sep [] = []
skip_sep (c ∷ s) = if is_sep c then s else c ∷ s

-- `[0-9A-Fa-f]{2}`, and what follows it.
abbrev pub hex_pair : Text → Option Text
hex_pair [] = none
hex_pair (a ∷ []) = none
hex_pair (a ∷ b ∷ s) = if is_hex a && is_hex b then some s else none

-- `([:-]?[0-9A-Fa-f]{2}){n}$`
unfoldable pub sep_pairs : ℕ → Text → Bool
sep_pairs zero s = is_empty s
sep_pairs (suc n) s = elim (hex_pair (skip_sep s)) [ none ↦ false | some t ↦ sep_pairs n t ]

-- `macRe`
unfoldable pub mac_re : Text → Bool
mac_re s = elim (hex_pair s) [ none ↦ false | some t ↦ sep_pairs 5 t ]

-- `strings.Join` of the pairs of characters, with ":".
unfoldable pub join_pairs : Text → Text
join_pairs [] = []
join_pairs (a ∷ []) = a ∷ []
join_pairs (a ∷ b ∷ []) = a ∷ b ∷ []
join_pairs (a ∷ b ∷ c ∷ s) = a ∷ b ∷ b':' ∷ join_pairs (c ∷ s)

-- The digits of an address, in upper case.
abbrev pub hex_of : Text → Text
hex_of s = map to_upper (keep (λ c. not (is_sep c)) s)

-- `NormalizeMAC`
unfoldable pub normalize_mac : Text → Option Text
normalize_mac s =
    let t = trim_space s in
    if mac_re t
    then if length (hex_of t) == 12 then some (join_pairs (hex_of t)) else none
    else none

-- `phoneRe`
unfoldable pub phone_re : Text → Bool
phone_re [] = false
phone_re (a ∷ []) = false
phone_re (a ∷ b ∷ s) = a == b'1' && (between b'3' b'9' b && (length s == 9 && all is_digit s))

-- `ValidPhone`
unfoldable pub valid_phone : Text → Bool
valid_phone s = phone_re (trim_space s)
