-- ===== src/Server/BackupCodes.antt =====
-- internal/server/user_backup_codes.go: the codes that stand in for a lost authenticator.
use router_billing.Prelude.{
  ℕ, ◌%◌, Bool, true, false, not, ◌||◌, Option, none, some, List, [], ◌∷◌, map, Text, length, ltb,
  ◌==◌, keep, all, if◌then◌else◌,
}
use router_billing.Prelude.Texts.{codes, to_upper, between}
use router_billing.Models.Accounts.{BackupCode}
use router_billing.Codes.{char_at}
use router_billing.Db.{Result, ok, err}
use router_billing.Db.SecondFactor.{
  unused_backup_codes, mark_backup_code_used, replace_backup_codes,
}
use router_billing.Server.Web.{Host, Step, ◌>>=◌, go, ask}

-- `backupCodeAlpha`
unfoldable pub backup_code_alpha : Text
backup_code_alpha = codes "ABCDEFGHJKLMNPQRSTUVWXYZ23456789"

-- `generateBackupCodes`, at the random bytes of each code.
abbrev pub code_of : Text → Text
code_of bytes = map (λ b. char_at (b % length backup_code_alpha) backup_code_alpha) bytes

unfoldable pub generate_backup_codes : Option (List Text) → Option (List Text)
generate_backup_codes none = none
generate_backup_codes (some bytes) = some (map code_of bytes)

-- `hashBackupCodes`
abbrev cons_if : Option Text → Option (List Text) → Option (List Text)
cons_if none rest = none
cons_if (some x) none = none
cons_if (some x) (some xs) = some (x ∷ xs)

unfoldable pub hash_backup_codes : Host → List Text → Option (List Text)
hash_backup_codes h [] = some []
hash_backup_codes h (c ∷ cs) = cons_if (h.hash c) (hash_backup_codes h cs)

-- `normalizeBackupCode`
abbrev is_gap : ℕ → Bool
is_gap c = c == b' ' || (c == b'-' || c == 9)

unfoldable pub normalize_backup_code : Text → Text
normalize_backup_code s = map to_upper (keep (λ c. not (is_gap c)) s)

-- `looksLikeBackupCode`
unfoldable pub looks_like_backup_code : Text → Bool
looks_like_backup_code s =
    let t = normalize_backup_code s in
    if ltb (length t) 8 || ltb 20 (length t)
    then false
    else all (λ c. between b'A' b'Z' c || between b'0' b'9' c) t

-- The loop of `verifyAndConsumeBackupCode`: the last match wins, and `matched` is 0 where there is none.
unfoldable pub last_match : Host → Text → ℕ → List BackupCode → ℕ
last_match h candidate matched [] = matched
last_match h candidate matched (b ∷ bs) =
    last_match h candidate (if h.matches b.code_hash candidate then b.id else matched) bs

module _ {S : Type 0} (h : Host) where
  abbrev consumed : Result (Unit {0}) → Step S Bool
  consumed (err e) = go false
  consumed (ok _) = go true

  abbrev matched_in : Text → Result (List BackupCode) → Step S Bool
  matched_in candidate (err e) = go false
  matched_in candidate (ok rows) =
      let matched = last_match h candidate 0 rows in
      if matched == 0
      then go false
      else (ask h (λ w. mark_backup_code_used w matched h.now) >>= consumed)

  -- `verifyAndConsumeBackupCode`; the caller takes an error for a code that is not good.
  unfoldable pub verify_and_consume_backup_code : ℕ → Text → Step S Bool
  verify_and_consume_backup_code user code = do
    rows ← ask h λ w. unused_backup_codes w user
    matched_in (normalize_backup_code code) rows

  abbrev stored : List Text → Result (Unit {0}) → Step S (Option (List Text))
  stored plain (err e) = go none
  stored plain (ok _) = go (some plain)

  abbrev store_hashes : ℕ → List Text → Option (List Text) → Step S (Option (List Text))
  store_hashes user plain none = go none
  store_hashes user plain (some hashes) =
      ask h (λ w. replace_backup_codes w user hashes h.now) >>= stored plain

  abbrev hash_and_store : ℕ → Option (List Text) → Step S (Option (List Text))
  hash_and_store user none = go none
  hash_and_store user (some plain) = store_hashes user plain (hash_backup_codes h plain)

  -- `generateAndStoreBackupCodes`; an error is `none`.
  unfoldable pub generate_and_store_backup_codes : ℕ → Step S (Option (List Text))
  generate_and_store_backup_codes user = hash_and_store user (generate_backup_codes h.backup_bytes)
