-- ===== src/Models/TypedText/Canonical.antt =====
-- `NormalizeMAC`: one spelling for each device, the one that the firewall takes.
use router_billing.Prelude.{
  ℕ, zero, suc, ◌+◌, ◌*◌, ◌%◌, ◌≡◌, refl, ap, Bool, true, false, ◌||◌, not, some, [], ◌∷◌, map,
  Text, All, length, arith, inl, inr, ◌==◌, Bool-cases, Option-cases,
}
use router_billing.Prelude.Lists.{keep}
use router_billing.Prelude.Texts.{trim_space, trim_space_none, is_space, to_upper, between}
use router_billing.Models.TypedText.{
  is_sep, skip_sep, hex_pair, sep_pairs, mac_re, join_pairs, hex_of, normalize_mac,
}
use router_billing.Firewall.{is_hex, valid_from, valid_mac}

-- A hex digit as `NormalizeMAC` prints it.
abbrev is_upper_hex : ℕ → Bool
is_upper_hex c = between b'0' b'9' c || between b'A' b'F' c

abbrev AreDigits : Text → Type 0
AreDigits = All (λ c. is_upper_hex c ≡ true)

upper_hex : (c : ℕ) → is_hex c ≡ true → is_upper_hex (to_upper c) ≡ true
unfolding to_upper
upper_hex c h = ground arith

pair-hex_of :
    (s t : Text)
    → hex_pair s ≡ some t
    → AreDigits (hex_of t)
    → AreDigits (hex_of s) × (length (hex_of s) ≡ length (hex_of t) + 2)
unfolding keep
pair-hex_of [] t e h = absurd (ground arith)
pair-hex_of (a ∷ []) t e h = absurd (ground arith)
pair-hex_of (a ∷ b ∷ s) t e h = ground (arith, upper_hex a, upper_hex b)

skip-hex_of : (s : Text) → hex_of (skip_sep s) ≡ hex_of s
unfolding keep
skip-hex_of [] = refl
skip-hex_of (c ∷ s) = ground arith

sep_pairs-hex_of :
    (n : ℕ) (s : Text) → sep_pairs n s ≡ true → AreDigits (hex_of s) × (length (hex_of s) ≡ n + n)
unfolding sep_pairs keep
sep_pairs-hex_of zero [] h = (tt, refl)
sep_pairs-hex_of zero (c ∷ s) h = absurd (ground arith)
sep_pairs-hex_of (suc n) s h = elim (Option-cases (hex_pair (skip_sep s))) [
  | inl short ↦ absurd (ground arith)
  | inr (t, e) ↦
      let (ds, len) = sep_pairs-hex_of n t (ground arith) in
      ground (arith, pair-hex_of (skip_sep s) t e ds, skip-hex_of s)
]

mac_re-hex_of : (s : Text) → mac_re s ≡ true → AreDigits (hex_of s) × (length (hex_of s) ≡ 12)
unfolding mac_re
mac_re-hex_of s h = elim (Option-cases (hex_pair s)) [
  | inl short ↦ absurd (ground arith)
  | inr (t, e) ↦
      let (ds, len) = sep_pairs-hex_of 5 t (ground arith) in ground (arith, pair-hex_of s t e ds)
]

digit-valid_from :
    (i c : ℕ) (s : Text)
    → is_upper_hex c ≡ true
    → (i % 3 == 2) ≡ false
    → valid_from i (c ∷ s) ≡ valid_from (i + 1) s
unfolding valid_from
digit-valid_from i c s h at = ground arith

pair-valid_from :
    (i a b : ℕ) (s : Text)
    → is_upper_hex a ≡ true
    → is_upper_hex b ≡ true
    → i % 3 ≡ 0
    → valid_from i (a ∷ b ∷ s) ≡ valid_from (i + 2) s
pair-valid_from i a b s ha hb at =
    let two : i + 1 + 1 ≡ i + 2 = omega arith in
    rw
      (
        digit-valid_from i a (b ∷ s) ha (ground arith),
        digit-valid_from (i + 1) b s hb (ground arith),
      )
      (ap (λ j. valid_from j s) two)

colon-valid_from :
    (i : ℕ) (s : Text) → i % 3 ≡ 0 → valid_from (i + 2) (b':' ∷ s) ≡ valid_from (i + 3) s
unfolding valid_from
colon-valid_from i s at = ground arith

-- What `join_pairs` makes of an even number of digits.
join_pairs-valid_from :
    (n i : ℕ) (s : Text)
    → AreDigits s
    → length s ≡ n + n + 2
    → i % 3 ≡ 0
    → (valid_from i (join_pairs s) ≡ true) × (length (join_pairs s) ≡ 3 * n + 2)
unfolding join_pairs valid_from
join_pairs-valid_from n i [] ds len at = absurd (omega arith)
join_pairs-valid_from n i (a ∷ []) ds len at = absurd (omega arith)
join_pairs-valid_from n i (a ∷ b ∷ []) ds len at =
    (rw (pair-valid_from i a b [] ds.0 ds.1.0 at) refl, omega arith)
join_pairs-valid_from zero i (a ∷ b ∷ c ∷ s) ds len at = absurd (omega arith)
join_pairs-valid_from (suc n) i (a ∷ b ∷ c ∷ s) ds len at =
    let (good, long) = join_pairs-valid_from n (i + 3) (c ∷ s) ds.1.1 (omega arith) (omega arith) in
    (
      rw
          (
            pair-valid_from i a b (b':' ∷ join_pairs (c ∷ s)) ds.0 ds.1.0 at,
            colon-valid_from i (join_pairs (c ∷ s)) at,
            good,
          )
          refl,
      omega (arith, long),
    )

join_pairs-sep_pairs :
    (n : ℕ) (s : Text)
    → AreDigits s
    → length s ≡ n + n + 2
    → sep_pairs (suc n) (b':' ∷ join_pairs s) ≡ true
unfolding join_pairs sep_pairs
join_pairs-sep_pairs n [] ds len = absurd (omega arith)
join_pairs-sep_pairs n (a ∷ []) ds len = absurd (omega arith)
join_pairs-sep_pairs zero (a ∷ b ∷ []) ds len = ground arith
join_pairs-sep_pairs (suc n) (a ∷ b ∷ []) ds len = absurd (omega arith)
join_pairs-sep_pairs zero (a ∷ b ∷ c ∷ s) ds len = absurd (omega arith)
join_pairs-sep_pairs (suc n) (a ∷ b ∷ c ∷ s) ds len =
    ground (arith, join_pairs-sep_pairs n (c ∷ s) ds.1.1 (omega arith))

keep-join_pairs : (s : Text) → AreDigits s → keep (λ c. not (is_sep c)) (join_pairs s) ≡ s
unfolding join_pairs keep
keep-join_pairs [] ds = refl
keep-join_pairs (a ∷ []) ds = ground arith
keep-join_pairs (a ∷ b ∷ []) ds = ground arith
keep-join_pairs (a ∷ b ∷ c ∷ s) ds = ground (arith, keep-join_pairs (c ∷ s) ds.1.1)

to_upper_same : (c : ℕ) → is_upper_hex c ≡ true → to_upper c ≡ c
unfolding to_upper
to_upper_same c h = ground arith

map-to_upper_same : (s : Text) → AreDigits s → map to_upper s ≡ s
map-to_upper_same [] ds = refl
map-to_upper_same (c ∷ s) ds = ground (arith, to_upper_same c, map-to_upper_same s ds.1)

upper_hex-space : (c : ℕ) → is_upper_hex c ≡ true → is_space c ≡ false
unfolding is_space
upper_hex-space c h = ground arith

join_pairs-space : (s : Text) → AreDigits s → All (λ c. is_space c ≡ false) (join_pairs s)
unfolding join_pairs is_space
join_pairs-space [] ds = tt
join_pairs-space (a ∷ []) ds = ground (arith, upper_hex-space a)
join_pairs-space (a ∷ b ∷ []) ds = ground (arith, upper_hex-space a, upper_hex-space b)
join_pairs-space (a ∷ b ∷ c ∷ s) ds =
    (upper_hex-space a ds.0, (upper_hex-space b ds.1.0, (refl, join_pairs-space (c ∷ s) ds.1.1)))

abbrev IsCanonical : Text → Type 0
IsCanonical m = (valid_mac m ≡ true) × (normalize_mac m ≡ some m)

join_pairs-mac_re : (s : Text) → AreDigits s → length s ≡ 12 → mac_re (join_pairs s) ≡ true
unfolding mac_re join_pairs
join_pairs-mac_re [] ds len = absurd (omega arith)
join_pairs-mac_re (a ∷ []) ds len = absurd (omega arith)
join_pairs-mac_re (a ∷ b ∷ []) ds len = absurd (omega arith)
join_pairs-mac_re (a ∷ b ∷ c ∷ s) ds len =
    ground (arith, join_pairs-sep_pairs 4 (c ∷ s) ds.1.1 (omega arith))

join_pairs-hex_of : (s : Text) → AreDigits s → hex_of (join_pairs s) ≡ s
join_pairs-hex_of s ds = rw (keep-join_pairs s ds) (map-to_upper_same s ds)

join_pairs-IsCanonical : (s : Text) → AreDigits s → length s ≡ 12 → IsCanonical (join_pairs s)
unfolding valid_mac normalize_mac
join_pairs-IsCanonical s ds len =
    let (good, long) = join_pairs-valid_from 5 0 s ds len refl in
    (
      ground arith,
      rw (
        trim_space_none (join_pairs s) (join_pairs-space s ds),
        join_pairs-mac_re s ds len,
        join_pairs-hex_of s ds,
        len,
      ),
    )

-- An address that is accepted comes out in a spelling that the firewall takes, and that stays as it is when it is
-- normalized again.
pub normalize_mac-normalize_mac :
    (s m : Text) → normalize_mac s ≡ some m → (valid_mac m ≡ true) × (normalize_mac m ≡ some m)
unfolding normalize_mac
normalize_mac-normalize_mac s m h = elim (Bool-cases (mac_re (trim_space s))) [
  | inl good ↦
      let (ds, len) = mac_re-hex_of (trim_space s) good in
      ground (arith, join_pairs-IsCanonical (hex_of (trim_space s)) ds len)
  | inr bad ↦ absurd (ground arith)
]
