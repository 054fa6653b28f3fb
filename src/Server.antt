-- ===== src/Server.antt =====
-- internal/server: the state of `App` that the modelled handlers read and write.
pub mod Wait
pub mod Payments
pub mod RateLimiter
pub mod Web
pub mod Accounts
pub mod Login
pub mod BackupCodes
pub mod SecondFactor
pub mod Forgot
pub mod Redeem
pub mod Settings
pub mod Api
use router_billing.Prelude.{ℕ, Bool, Option, none, some, List, [], ◌∷◌, ◌++◌, Text, if◌then◌else◌}
use router_billing.Db.{Query, Result, ok, err}
use router_billing.Service.{Router, Action}
use router_billing.Server.RateLimiter.{Limiter, Limits}
use router_billing.Firewall.{Nft}

-- A channel that `waitFor` made for an order; the number stands for its identity.
pub record Waiter : Type 0 where
  pub order_no : Text
  pub channel : ℕ

-- A row of `audit_log`.
pub record AuditEntry : Type 0 where
  pub actor : Text
  pub action : Text
  pub target : Text
  pub detail : Text

-- A `notify.Event` that was handed to `Notifier.Send`.
pub record Event : Type 0 where
  pub kind : Text
  pub actor : Text
  pub mac : Text
  pub user_id : ℕ
  pub amount : ℕ
  pub days : ℕ
  pub order_no : Text
  pub voucher : Text

-- An entry of the map `userTwoFAAttempts`.
pub record Tries : Type 0 where
  pub token : Text
  pub count : ℕ

-- A row of `sms_log`.
pub record SmsEntry : Type 0 where
  pub provider : Text
  pub phone : Text
  pub message : Text
  pub success : Bool

-- An entry of the map `apiTokenLimiter`.
pub record ApiLimit : Type 0 where
  pub label : Text
  pub limiter : Limiter

pub record App (S : Type 0) : Type 0 where
  pub router : Router S
  -- the map `waiters`, each order's channels in order
  pub waiters : List Waiter
  -- the channels whose buffer holds a token
  pub signaled : List ℕ
  pub next_channel : ℕ
  pub audits : List AuditEntry
  pub events : List Event
  pub limits : Limits
  pub tries : List Tries
  pub sms_log : List SmsEntry
  pub api_limits : List ApiLimit

abbrev pub Handler : Type 0 → Type 0 → Type 0
Handler S A = App S → Result A × App S

module _ {S : Type 0} where
  infixl 5 ◌>>=◌ ◌>>◌
  abbrev pub ◌>>=◌ : {A B : Type 0} → Handler S A → (A → Handler S B) → Handler S B
  ◌>>=◌ m f a = let (x, a') = m a in elim x [ ok y ↦ f y a' | err e ↦ (err e, a') ]

  abbrev pub ◌>>◌ : {A B : Type 0} → Handler S A → Handler S B → Handler S B
  m >> k = m >>= λ _. k

  abbrev pub return : {A : Type 0} → A → Handler S A
  return x a = (ok x, a)

  -- A call of the service, and one of the database alone.
  abbrev pub service : {A : Type 0} → Action S A → Handler S A
  service m a = let (x, r) = m a.router in (x, record a { router = r })

  abbrev pub query : {A : Type 0} → Query A → Handler S A
  query q a = let (x, d) = q a.router.db in (x, record a { router = record (a.router) { db = d } })

  abbrev pub modify : (App S → App S) → Handler S (Unit {0})
  modify f a = (ok tt, f a)

  -- `DB.Audit`: best effort, `works` says whether the row was written.
  abbrev pub audit : Bool → AuditEntry → App S → App S
  audit works e a = if works then record a { audits = a.audits ++ e ∷ [] } else a

  abbrev pub send : Event → App S → App S
  send e a = record a { events = a.events ++ e ∷ [] }
