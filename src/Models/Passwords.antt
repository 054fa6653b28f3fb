-- ===== src/Models/Passwords.antt =====
-- internal/models/models.go: which passwords are accepted. A password counts in bytes in Go; the model is for ASCII.
use router_billing.Prelude.{
  ℕ, ◌+◌, ◌≡◌, Bool, true, false, ◌&&◌, ◌||◌, not, List, [], ◌∷◌, map, Text, arith, length, leb,
  if◌then◌else◌,
}
use router_billing.Prelude.Lists.{any, text_eq}

unfoldable pub valid_password : Text → Bool
valid_password p = leb 6 (length p) && leb (length p) 72

-- `strings.ToLower` on ASCII.
abbrev pub lower : ℕ → ℕ
lower c = if leb b'A' c && leb c b'Z' then c + 32 else c

abbrev pub is_letter : ℕ → Bool
is_letter c = leb b'a' c && leb c b'z' || leb b'A' c && leb c b'Z'

abbrev pub is_digit : ℕ → Bool
is_digit c = leb b'0' c && leb c b'9'

-- The keys of `commonWeakPasswords`.
unfoldable pub common_weak_passwords : List Text
common_weak_passwords =
    (b'1' ∷ b'2' ∷ b'3' ∷ b'4' ∷ b'5' ∷ b'6' ∷ [])
    ∷ (b'p' ∷ b'a' ∷ b's' ∷ b's' ∷ b'w' ∷ b'o' ∷ b'r' ∷ b'd' ∷ [])
    ∷ (b'1' ∷ b'2' ∷ b'3' ∷ b'4' ∷ b'5' ∷ b'6' ∷ b'7' ∷ b'8' ∷ b'9' ∷ [])
    ∷ (b'q' ∷ b'w' ∷ b'e' ∷ b'r' ∷ b't' ∷ b'y' ∷ [])
    ∷ (b'a' ∷ b'b' ∷ b'c' ∷ b'1' ∷ b'2' ∷ b'3' ∷ [])
    ∷ (b'1' ∷ b'1' ∷ b'1' ∷ b'1' ∷ b'1' ∷ b'1' ∷ [])
    ∷ (b'1' ∷ b'2' ∷ b'3' ∷ b'4' ∷ b'5' ∷ b'6' ∷ b'7' ∷ b'8' ∷ [])
    ∷ (b'i' ∷ b'l' ∷ b'o' ∷ b'v' ∷ b'e' ∷ b'y' ∷ b'o' ∷ b'u' ∷ [])
    ∷ (b'a' ∷ b'd' ∷ b'm' ∷ b'i' ∷ b'n' ∷ b'1' ∷ b'2' ∷ b'3' ∷ [])
    ∷ (b'l' ∷ b'e' ∷ b't' ∷ b'm' ∷ b'e' ∷ b'i' ∷ b'n' ∷ [])
    ∷ (b'w' ∷ b'e' ∷ b'l' ∷ b'c' ∷ b'o' ∷ b'm' ∷ b'e' ∷ [])
    ∷ (b'm' ∷ b'o' ∷ b'n' ∷ b'k' ∷ b'e' ∷ b'y' ∷ [])
    ∷ (b'd' ∷ b'r' ∷ b'a' ∷ b'g' ∷ b'o' ∷ b'n' ∷ [])
    ∷ (b'b' ∷ b'a' ∷ b's' ∷ b'e' ∷ b'b' ∷ b'a' ∷ b'l' ∷ b'l' ∷ [])
    ∷ (b'f' ∷ b'o' ∷ b'o' ∷ b't' ∷ b'b' ∷ b'a' ∷ b'l' ∷ b'l' ∷ [])
    ∷ (b's' ∷ b'u' ∷ b'n' ∷ b's' ∷ b'h' ∷ b'i' ∷ b'n' ∷ b'e' ∷ [])
    ∷ (b'p' ∷ b'r' ∷ b'i' ∷ b'n' ∷ b'c' ∷ b'e' ∷ b's' ∷ b's' ∷ [])
    ∷ (b'q' ∷ b'w' ∷ b'e' ∷ b'r' ∷ b't' ∷ b'y' ∷ b'1' ∷ b'2' ∷ b'3' ∷ [])
    ∷ []

-- `ValidPasswordStrong`
unfoldable pub valid_password_strong : Text → Bool
unfolding valid_password
valid_password_strong p =
    if not (valid_password p)
    then false
    else if leb 10 (length p)
    then true
    else if any (text_eq (map lower p)) common_weak_passwords
    then false
    else any is_letter p && any is_digit p

-- The strict check accepts nothing that the plain one refuses. Under ten characters it wants a letter and a
-- digit, and none of the common passwords in any case of its letters; from ten on it asks no more.
pub valid_password_strong_lem :
    (p : Text)
    → valid_password_strong p ≡ (
        valid_password p
        && (leb 10 (length p)
            || (any is_letter p
                && (any is_digit p && not (any (text_eq (map lower p)) common_weak_passwords)))))
unfolding valid_password_strong
valid_password_strong_lem p = ground arith
