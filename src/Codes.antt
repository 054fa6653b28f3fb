-- ===== src/Codes.antt =====
-- internal/voucher/code.go: the codes that are printed on vouchers, and what users may type for them.
pub mod Shape
use router_billing.Prelude.{
  ℕ, suc, zero, ◌+◌, ◌%◌, Bool, true, false, ◌&&◌, ◌||◌, not, Option, none, some, List, [], ◌∷◌,
  map, Text, length, leb, ltb, ◌==◌, keep, all, any, if◌then◌else◌,
}
use router_billing.Prelude.Texts.{codes, trim_space, to_upper}

-- `alphabet`
unfoldable pub alphabet : Text
alphabet = codes "23456789ABCDEFGHJKMNPQRSTUVWXYZ"

-- `s[i]`; Go panics at the end of the text, where this is 0.
unfoldable pub char_at : ℕ → Text → ℕ
char_at i [] = 0
char_at zero (c ∷ s) = c
char_at (suc i) (c ∷ s) = char_at i s

-- `alphabet[int(b)%len(alphabet)]`
unfoldable pub letter_of : ℕ → ℕ
letter_of b = char_at (b % length alphabet) alphabet

-- `New`, at the twelve bytes that `rand.Read` gives; `none` where it fails.
unfoldable pub new_code : Option Text → Option Text
new_code none = none
new_code (some bytes) = some (map letter_of bytes)

abbrev pub is_filler : ℕ → Bool
is_filler c = c == b'-' || c == b' '

-- `Canon`
unfoldable pub canon : Text → Text
canon code = map to_upper (keep (λ c. not (is_filler c)) (trim_space code))

unfoldable pub is_letter_of_code : ℕ → Bool
unfolding alphabet
is_letter_of_code c = any (λ a. c == a) alphabet

-- `Validate`
unfoldable pub validate : Text → Bool
validate code = length (canon code) == 12 && all is_letter_of_code (canon code)

-- The loop of `Pretty`, from index `i`.
unfoldable pub grouped : ℕ → Text → Text
grouped i [] = []
grouped i (c ∷ s) =
    let rest = grouped (i + 1) s in if ltb 0 i && i % 4 == 0 then b'-' ∷ c ∷ rest else c ∷ rest

-- `Pretty`
unfoldable pub pretty : Text → Text
pretty code = let c = canon code in if leb (length c) 4 then c else grouped 0 c
