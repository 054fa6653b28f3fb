-- ===== src/Db.antt =====
-- internal/db: the state behind `db.DB`, and what a call of it can do to that state.
pub mod Macs
pub mod Orders
pub mod Vouchers
pub mod Sessions
pub mod Users
pub mod Plans
pub mod SecondFactor
pub mod Calls
pub mod Invariant
use router_billing.Prelude.{
  ℕ, ◌≡◌, ◌⊎◌, inl, inr, refl, Bool, true, false, Option, none, some, List, Text,
}
use router_billing.Models.Accounts.{User, TrustedDevice, BackupCode, PasswordReset}
use router_billing.Models.{Time, Mac, Order, Voucher, OrderStatus}

-- A row of `sessions`; the kinds are "admin", "user", "pending_2fa" and "user_pending_2fa".
pub data SessionKind : Type 0 where
  admin user pending_2fa user_pending_2fa : SessionKind

pub record Session : Type 0 where
  pub token : Text
  pub kind : SessionKind
  pub subject : Text
  pub user_id : Option ℕ
  pub expires_at : Time

-- The tables that the modelled operations read and write. Each `seq` is the AUTOINCREMENT counter.
pub record Db : Type 0 where
  pub macs : List Mac
  pub mac_seq : ℕ
  pub orders : List Order
  pub order_seq : ℕ
  pub vouchers : List Voucher
  pub voucher_seq : ℕ
  pub sessions : List Session
  pub users : List User
  pub user_seq : ℕ
  pub trusted : List TrustedDevice
  pub trusted_seq : ℕ
  pub backup_codes : List BackupCode
  pub backup_seq : ℕ
  pub resets : List PasswordReset
  pub reset_seq : ℕ

pub data Error : Type 0 where
  -- what SQLite or its driver returned: a lock, a full disk, a constraint
  sql_failed : Error
  unique_violation : Error
  order_not_found : Text → Error
  only_paid_refunded : Text → OrderStatus → Error
  only_pending_canceled : Text → OrderStatus → Error
  no_longer_pending : Text → Error
  bad_older_than : Error
  mac_not_owned mac_over mac_taken : Text → Error
  voucher_not_found voucher_used voucher_revoked voucher_expired : Error
  -- outside `db`: the firewall's errors, and Go's panic on a nil pointer
  invalid_mac : Text → Error
  nft_failed : Error
  nil_pointer : Error

pub data Result {ℓ} (A : Type ℓ) : Type ℓ where
  ok : A → Result A
  err : Error → Result A

pub Result-cases {ℓ} :
    {A : Type ℓ} (r : Result A) → ((a : A) × (r ≡ ok a)) ⊎ ((e : Error) × (r ≡ err e))
Result-cases (ok a) = inl (a, refl)
Result-cases (err e) = inr (e, refl)

-- The body of a call: it reads and writes the state, and may fail.
abbrev pub Query : Type 0 → Type 0
Query A = Db → Result A × Db

module _ {A : Type 0} where
  abbrev pub pure : A → Query A
  pure a d = (ok a, d)

  abbrev pub fail : Error → Query A
  fail e d = (err e, d)

  abbrev pub reads : (Db → A) → Query A
  reads f d = (ok (f d), d)

  abbrev pub or_fail : Option A → Error → Query A
  or_fail none e = fail e
  or_fail (some a) e = pure a

infixl 5 ◌>>=◌ ◌>>◌
abbrev pub ◌>>=◌ : {A B : Type 0} → Query A → (A → Query B) → Query B
◌>>=◌ m f d = let (r, d') = m d in elim r [ ok a ↦ f a d' | err e ↦ (err e, d') ]

abbrev pub ◌>>◌ : {A B : Type 0} → Query A → Query B → Query B
m >> k = m >>= λ _. k

abbrev pub modify : (Db → Db) → Query (Unit {0})
modify f d = (ok tt, f d)

abbrev pub fail_if : Bool → Error → Query (Unit {0})
fail_if true e = fail e
fail_if false e = pure tt

-- What a transaction leaves behind: on an error the deferred `tx.Rollback()` undoes its writes.
abbrev pub rolled_back : {A : Type 0} → Db → Result A × Db → Result A × Db
rolled_back d (ok a, d') = (ok a, d')
rolled_back d (err e, d') = (err e, d)

-- A call of `db.DB`. `works` says whether SQLite carries it out; where it does not, at whichever
-- statement, the call returns the error and nothing is written.
abbrev pub call : {A : Type 0} → Bool → Query A → Query A
call true body d = rolled_back d (body d)
call false body d = (err sql_failed, d)
