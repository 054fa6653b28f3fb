-- ===== src/Totp/Window.antt =====
-- How long the code of an authenticator is good, and what a code looks like.
use router_billing.Prelude.{
  ℕ, suc, zero, ◌+◌, ◌-◌, ◌^◌, ap, Option-cases, ◌⊎◌, ◌*◌, ◌/◌, ◌%◌, ◌≤◌, ◌<◌, ◌≡◌, refl, sym, Bool,
  true, some, [], ◌∷◌, ◌++◌, Text, length, text_eq_refl, length-append, arith, inl, inr, ltb,
  Bool-cases,
}
use router_billing.Prelude.Lists.{all}
use router_billing.Prelude.Digits.{itoa_from, itoa}
use router_billing.Prelude.Int.{ℤ, pos, negsuc, ◌+ℤ◌}
use router_billing.Models.Passwords.{is_digit}
use router_billing.Totp.{
  Crypto, IsCrypto, unix, step_of, byte_at, uint64, big_endian, padded, truncated, hotp,
  decode_secret, code_at, verify, digits, truncate, zeros, matches,
}

abbrev tens : ℕ → ℕ
tens zero = 1
tens (suc k) = 10 * tens k

length-itoa_from :
    (fuel n k : ℕ) (rest : Text)
    → n < tens (suc k)
    → length (itoa_from fuel n rest) ≤ length rest + suc k
unfolding itoa_from
length-itoa_from zero n k rest h = omega arith
length-itoa_from (suc fuel) n zero rest h = ground arith
length-itoa_from (suc fuel) n (suc k) rest h =
    ground (arith, length-itoa_from fuel (n / 10) k ((48 + n % 10) ∷ rest))

all-itoa_from :
    (fuel n : ℕ) (rest : Text)
    → all is_digit rest ≡ true
    → all is_digit (itoa_from fuel n rest) ≡ true
unfolding itoa_from all
all-itoa_from zero n rest h = h
all-itoa_from (suc fuel) n rest h =
    ground (arith, all-itoa_from fuel (n / 10) ((48 + n % 10) ∷ rest))

all-append : (p : ℕ → Bool) (s t : Text) → all p s ≡ true → all p t ≡ true → all p (s ++ t) ≡ true
unfolding all
all-append p [] t hs ht = ht
all-append p (c ∷ s) t hs ht = ground (arith, all-append p s t)

abbrev IsCode : Text → Type 0
IsCode code = (length code ≡ 6) × (all is_digit code ≡ true)

length-zeros : (n : ℕ) → length (zeros n) ≡ n
length-zeros zero = refl
length-zeros (suc n) = ap suc (length-zeros n)

all-zeros : (n : ℕ) → all is_digit (zeros n) ≡ true
unfolding all
all-zeros zero = refl
all-zeros (suc n) = all-zeros n

padded-IsCode : (n : ℕ) → n < 1_000_000 → IsCode (padded 6 n)
unfolding padded itoa all
padded-IsCode n h =
    let few = length-itoa_from (n + 1) n 5 [] h in
    let k = 6 - length (itoa_from (n + 1) n []) in
    (
      rw (length-append (zeros k) (itoa_from (n + 1) n []), length-zeros k) (omega (arith, few)),
      all-append is_digit (zeros k) (itoa_from (n + 1) n []) (all-zeros k)
          (all-itoa_from (n + 1) n [] refl),
    )

byte_at-some : (i : ℕ) (s : Text) → i < length s → (b : ℕ) × (byte_at i s ≡ some b)
unfolding byte_at
byte_at-some i [] h = absurd (omega (arith, h))
byte_at-some zero (b ∷ s) h = (b, refl)
byte_at-some (suc i) (b ∷ s) h = byte_at-some i s (omega (arith, h))

truncate-IsCode :
    (sum : Text) → length sum ≡ 20 → (code : Text) × (truncate sum ≡ some code) × IsCode code
unfolding truncate
truncate-IsCode sum len =
    let (last, e) = byte_at-some (length sum - 1) sum (omega (arith, len)) in
    let (b0, e0) = byte_at-some (last % 16) sum (omega (arith, len)) in
    let (b1, e1) = byte_at-some (last % 16 + 1) sum (omega (arith, len)) in
    let (b2, e2) = byte_at-some (last % 16 + 2) sum (omega (arith, len)) in
    let (b3, e3) = byte_at-some (last % 16 + 3) sum (omega (arith, len)) in
    let n = truncated b0 b1 b2 b3 % 10 ^ digits in
    (padded digits n, rw (e, e0, e1, e2, e3), padded-IsCode n (omega arith))

-- `hotp` never reads behind the end of the MAC: it always gives a code, of six decimal digits.
pub hotp_lem :
    (c : Crypto) (key : Text) (counter : ℤ)
    → IsCrypto c
    → (code : Text) × (hotp c key counter ≡ some code)
      × (length code ≡ 6)
      × (all is_digit code ≡ true)
unfolding hotp
hotp_lem c key counter laws =
    let (code, e, good) =
      truncate-IsCode (c.mac key (big_endian 8 (uint64 counter)))
        (laws.twenty key (big_endian 8 (uint64 counter))) in
    (code, e, good.0, good.1)

abbrev IsNear : ℤ → ℤ → Type 0
IsNear s t = (s ≡ t +ℤ negsuc 0) ⊎ ((s ≡ t +ℤ pos 0) ⊎ (s ≡ t +ℤ pos 1))

pos-IsNear : (a b : ℕ) → a ≤ b + 1 → b ≤ a + 1 → IsNear (pos a) (pos b)
unfolding ◌+ℤ◌
pos-IsNear a b h k = elim (Bool-cases (ltb a b)) [
  | inl less ↦ inl (ground arith)
  | inr n ↦ elim (Bool-cases (ltb b a)) [
    | inl more ↦ inr (inr (ground arith))
    | inr same ↦ inr (inl (ground arith))
  ]
]

-- The step of a time half a minute off is one of the three that are tried.
IsNear-step :
    (u v : ℕ)
    → u ≤ v + 30_000_000_000
    → v ≤ u + 30_000_000_000
    → IsNear (step_of (unix (pos u))) (step_of (unix (pos v)))
unfolding unix step_of
IsNear-step u v after before =
    pos-IsNear (u / 1_000_000_000 / 30) (v / 1_000_000_000 / 30) (omega arith) (omega arith)

near-matches :
    (c : Crypto) (code key : Text) (s t : ℤ)
    → IsNear s t
    → hotp c key s ≡ some code
    → matches c code key t ≡ true
near-matches c code key s t (inl e) h =
    let there : hotp c key (t +ℤ negsuc 0) ≡ some code = rw (sym e) h in
    rw (there, text_eq_refl code)
near-matches c code key s t (inr (inl e)) h =
    let there : hotp c key (t +ℤ pos 0) ≡ some code = rw (sym e) h in
    ground (arith, text_eq_refl code)
near-matches c code key s t (inr (inr e)) h =
    let there : hotp c key (t +ℤ pos 1) ≡ some code = rw (sym e) h in
    ground (arith, text_eq_refl code)

-- A code that the authenticator shows is accepted for half a minute before and after, whatever the secret, as long
-- as the secret can be decoded.
pub code_at-verify :
    (c : Crypto) (secret code : Text) (u v : ℕ)
    → IsCrypto c
    → code_at c secret (unix (pos u)) ≡ some code
    → u ≤ v + 30_000_000_000
    → v ≤ u + 30_000_000_000
    → verify c secret code (pos v) ≡ true
unfolding code_at verify
code_at-verify c secret code u v laws shown after before =
    elim (Option-cases (decode_secret c secret)) [
      | inl bad ↦ absurd (ground arith)
      | inr (key, e) ↦
          let s = step_of (unix (pos u)) in
          let (x, h, len, ds) = hotp_lem c key s laws in
          let near =
            near-matches c code key s (step_of (unix (pos v))) (IsNear-step u v after before) in
          ground (arith, near)
    ]
