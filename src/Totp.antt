-- ===== src/Totp.antt =====
-- internal/totp/totp.go: the codes of an authenticator. HMAC-SHA1 and base32 belong to Go's library.
pub mod Window
use router_billing.Prelude.{
  ℕ, suc, zero, ◌+◌, ◌-◌, ◌*◌, ◌/◌, ◌%◌, ◌^◌, ◌≡◌, Bool, true, false, ◌&&◌, ◌||◌, not, Option, none,
  some, List, [], ◌∷◌, ◌++◌, map, Text, length, text_eq, leb, ltb, ◌==◌, keep, if◌then◌else◌,
}
use router_billing.Prelude.Digits.{itoa}
use router_billing.Prelude.Int.{ℤ, pos, negsuc, ◌+ℤ◌}
use router_billing.Prelude.Texts.{to_upper}
use router_billing.Models.{Time}

-- What the code takes from Go's library: `base32.StdEncoding.DecodeString`, and the MAC of a message under a key.
pub record Crypto : Type 0 where
  pub decode : Text → Option Text
  pub mac : Text → Text → Text

-- A message of HMAC-SHA1 has a code of twenty bytes.
pub record IsCrypto (c : Crypto) : Type 0 where
  pub twenty : (key message : Text) → length (c.mac key message) ≡ 20

-- `x, err := …; if err != nil { return … }`
infixl 5 ◌>>=◌
abbrev pub ◌>>=◌ : {A B : Type 0} → Option A → (A → Option B) → Option B
◌>>=◌ none f = none
◌>>=◌ (some x) f = f x

abbrev pub period : ℕ
period = 30

abbrev pub digits : ℕ
digits = 6

-- `now.Unix()`
unfoldable pub unix : Time → ℤ
unix (pos n) = pos (n / 1_000_000_000)
unix (negsuc n) = negsuc (n / 1_000_000_000)

-- `t / period`, which Go rounds towards 0.
unfoldable pub step_of : ℤ → ℤ
step_of (pos n) = pos (n / period)
step_of (negsuc n) = if ltb (n + 1) period then pos 0 else negsuc ((n + 1) / period - 1)

-- `uint64(counter)`, for a counter of 64 bits.
unfoldable pub uint64 : ℤ → ℕ
uint64 (pos n) = n % 2 ^ 64
uint64 (negsuc n) = 2 ^ 64 - 1 - n % 2 ^ 64

-- `binary.BigEndian.PutUint64`: the lowest `k` bytes.
unfoldable pub big_endian : ℕ → ℕ → Text
big_endian zero n = []
big_endian (suc k) n = n / 256 ^ k % 256 ∷ big_endian k n

-- `sum[i]`; an index out of range is a panic.
unfoldable pub byte_at : ℕ → Text → Option ℕ
byte_at i [] = none
byte_at zero (b ∷ s) = some b
byte_at (suc i) (b ∷ s) = byte_at i s

-- `fmt.Sprintf("%0*d", width, n)`
abbrev pub zeros : ℕ → Text
zeros zero = []
zeros (suc n) = b'0' ∷ zeros n

unfoldable pub padded : ℕ → ℕ → Text
padded width n = zeros (width - length (itoa n)) ++ itoa n

-- The four bytes at the offset, less the sign bit.
abbrev pub truncated : ℕ → ℕ → ℕ → ℕ → ℕ
truncated a b c d = a % 128 * 2 ^ 24 + b * 2 ^ 16 + c * 2 ^ 8 + d

-- The end of `hotp`, on the MAC; `none` stands for the panic.
unfoldable pub truncate : Text → Option Text
truncate sum = do
  last ← byte_at (length sum - 1) sum
  b0 ← byte_at (last % 16) sum
  b1 ← byte_at (last % 16 + 1) sum
  b2 ← byte_at (last % 16 + 2) sum
  b3 ← byte_at (last % 16 + 3) sum
  some (padded digits (truncated b0 b1 b2 b3 % 10 ^ digits))

-- `hotp`
unfoldable pub hotp : Crypto → Text → ℤ → Option Text
hotp c key counter = truncate (c.mac key (big_endian 8 (uint64 counter)))

-- What `decodeSecret` strips.
abbrev pub is_blank : ℕ → Bool
is_blank c = c == b' ' || (c == 9 || (c == 10 || (c == 13 || c == b'-')))

abbrev pads : ℕ → Text
pads zero = []
pads (suc n) = b'=' ∷ pads n

abbrev pub padded_secret : Text → Text
padded_secret s = if length s % 8 == 0 then s else s ++ pads (8 - length s % 8)

-- `decodeSecret`
unfoldable pub decode_secret : Crypto → Text → Option Text
decode_secret c s = c.decode (padded_secret (map to_upper (keep (λ x. not (is_blank x)) s)))

-- `Code`; `none` is an error or a panic.
unfoldable pub code_at : Crypto → Text → ℤ → Option Text
code_at c secret seconds = do key ← decode_secret c secret; hotp c key (step_of seconds)

-- `subtle.ConstantTimeCompare(want, code) == 1`
abbrev pub equals : Text → Option Text → Bool
equals code none = false
equals code (some want) = text_eq want code

-- The loop of `Verify` over the skews -1, 0 and 1.
abbrev pub matches : Crypto → Text → Text → ℤ → Bool
matches c code key t =
    equals code (hotp c key (t +ℤ negsuc 0))
    || (equals code (hotp c key (t +ℤ pos 0)) || equals code (hotp c key (t +ℤ pos 1)))

-- `Verify`
unfoldable pub verify : Crypto → Text → Text → Time → Bool
verify c secret code now =
    if length code == digits
    then elim (decode_secret c secret) [
      | none ↦ false
      | some key ↦ matches c code key (step_of (unix now))
    ]
    else false
