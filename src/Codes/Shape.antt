-- ===== src/Codes/Shape.antt =====
-- Voucher codes: a new code is one that is accepted, and printing a code loses nothing.
use router_billing.Prelude.{
  ℕ, suc, zero, ◌+◌, ◌%◌, ◌≡◌, refl, ap, Bool, true, false, not, some, [], ◌∷◌, map, Text, All,
  length, arith, ltb,
}
use router_billing.Prelude.Lists.{keep, any, all}
use router_billing.Prelude.Texts.{trim_space_none, is_space, to_upper}
use router_billing.Codes.{
  alphabet, char_at, letter_of, new_code, is_filler, canon, is_letter_of_code, validate, grouped,
  pretty,
}

-- What every letter of the alphabet is.
abbrev IsPlain : ℕ → Type 0
IsPlain c =
    (to_upper c ≡ c) × (is_space c ≡ false) × (is_filler c ≡ false) × (is_letter_of_code c ≡ true)

IsPlain-of_letter : (c : ℕ) → is_letter_of_code c ≡ true → IsPlain c
unfolding is_letter_of_code alphabet any to_upper is_space
IsPlain-of_letter c h = ground arith

char_at-IsLetter :
    (i : ℕ) (p : ℕ → Bool) (s : Text)
    → all p s ≡ true
    → ltb i (length s) ≡ true
    → p (char_at i s) ≡ true
unfolding char_at all
char_at-IsLetter i p [] h lt = absurd (ground arith)
char_at-IsLetter zero p (c ∷ s) h lt = ground arith
char_at-IsLetter (suc i) p (c ∷ s) h lt = ground (arith, char_at-IsLetter i p s)

all_letters : all is_letter_of_code alphabet ≡ true
unfolding all is_letter_of_code alphabet any
all_letters = refl

letter_of-IsLetter : (b : ℕ) → is_letter_of_code (letter_of b) ≡ true
unfolding letter_of alphabet
letter_of-IsLetter b =
    char_at-IsLetter (b % length alphabet) is_letter_of_code alphabet all_letters (ground arith)

abbrev AreLetters : Text → Type 0
AreLetters s = all is_letter_of_code s ≡ true

map-letters : (s : Text) → AreLetters s → map to_upper s ≡ s
unfolding all
map-letters [] h = refl
map-letters (c ∷ s) h = ground (arith, IsPlain-of_letter c, map-letters s)

grouped-space : (i : ℕ) (s : Text) → AreLetters s → All (λ c. is_space c ≡ false) (grouped i s)
unfolding all grouped is_space
grouped-space i [] h = tt
grouped-space i (c ∷ s) h = ground (arith, IsPlain-of_letter c, grouped-space (i + 1) s)

keep-grouped : (i : ℕ) (s : Text) → AreLetters s → keep (λ c. not (is_filler c)) (grouped i s) ≡ s
unfolding all grouped keep
keep-grouped i [] h = refl
keep-grouped i (c ∷ s) h = ground (arith, IsPlain-of_letter c, keep-grouped (i + 1) s)

keep-letters : (s : Text) → AreLetters s → keep (λ c. not (is_filler c)) s ≡ s
unfolding all keep
keep-letters [] h = refl
keep-letters (c ∷ s) h = ground (arith, IsPlain-of_letter c, keep-letters s)

letters-space : (s : Text) → AreLetters s → All (λ c. is_space c ≡ false) s
unfolding all
letters-space [] h = tt
letters-space (c ∷ s) h = ground (arith, IsPlain-of_letter c, letters-space s)

canon-letters : (s : Text) → AreLetters s → canon s ≡ s
unfolding canon
canon-letters s h = rw (trim_space_none s (letters-space s h), keep-letters s h, map-letters s h)

canon-grouped : (s : Text) → AreLetters s → canon (grouped 0 s) ≡ s
unfolding canon
canon-grouped s h =
    rw (trim_space_none (grouped 0 s) (grouped-space 0 s h), keep-grouped 0 s h, map-letters s h)

new-letters : (bytes : Text) → AreLetters (map letter_of bytes)
unfolding all
new-letters [] = refl
new-letters (b ∷ bytes) = ground (arith, letter_of-IsLetter b, new-letters bytes)

length-map : (f : ℕ → ℕ) (s : Text) → length (map f s) ≡ length s
length-map f [] = refl
length-map f (c ∷ s) = ap suc (length-map f s)

-- A new code, whatever the twelve random bytes, is accepted and already in its canonical form.
pub new_code-validate :
    (bytes code : Text)
    → length bytes ≡ 12
    → new_code (some bytes) ≡ some code
    → (validate code ≡ true) × (canon code ≡ code)
unfolding new_code validate
new_code-validate bytes code len h =
    ground (arith, canon-letters code, new-letters bytes, length-map letter_of bytes)

-- An accepted code that is printed in groups is still accepted, and stands for the same voucher.
pub canon-pretty :
    (code : Text)
    → validate code ≡ true
    → (canon (pretty code) ≡ canon code) × (validate (pretty code) ≡ true)
unfolding validate pretty
canon-pretty code h = ground (arith, canon-grouped (canon code))
