-- ===== src/Tests/Data.antt =====
-- A router with two devices, an order, a voucher and a session, and a firewall kept in memory.
use router_billing.Prelude.{
  ◌*◌, ◌≡◌, refl, sym, ap, true, false, ◌&&◌, ◌||◌, not, none, some, List, [], ◌∷◌, ◌++◌, Text,
  text_eq, text_eq-eq, arith, inl, inr, Bool-cases, if◌then◌else◌,
}
use router_billing.Prelude.Lists.{any, all}
use router_billing.Prelude.Int.{pos}
use router_billing.Prelude.Table.{delete_where, find, get}
use router_billing.Models.{Time, Mac, Order, OrderStatus, Voucher, day_ns}
use router_billing.Db.{Db, Session, SessionKind}
use router_billing.Db.Macs.{new_mac}
use router_billing.Db.Vouchers.{new_voucher}
use router_billing.Db.Sessions.{new_session}
use router_billing.Models.Accounts.{User, TrustedDevice, BackupCode}
use router_billing.Db.Users.{new_user}
use router_billing.Db.SecondFactor.{new_trusted_device}
use router_billing.Db.Invariant.{IsValid}
use router_billing.Firewall.{
  Nft, IsNft, Command, Outcome, add_element, delete_element, flush_set, done, failed, among,
}
use router_billing.Service.{Router}
use router_billing.Server.{App}
use router_billing.Server.RateLimiter.{new_limits}

-- "AA:BB:CC:DD:EE:01" and "AA:BB:CC:DD:EE:02"
abbrev pub phone : Text
phone =
    b'A' ∷ b'A' ∷ b':' ∷ b'B' ∷ b'B' ∷ b':' ∷ b'C' ∷ b'C' ∷ b':' ∷ b'D' ∷ b'D' ∷ b':' ∷ b'E' ∷ b'E'
    ∷ b':' ∷ b'0' ∷ b'1' ∷ []

abbrev pub laptop : Text
laptop =
    b'A' ∷ b'A' ∷ b':' ∷ b'B' ∷ b'B' ∷ b':' ∷ b'C' ∷ b'C' ∷ b':' ∷ b'D' ∷ b'D' ∷ b':' ∷ b'E' ∷ b'E'
    ∷ b':' ∷ b'0' ∷ b'2' ∷ []

abbrev pub month : Text
month = b'm' ∷ []

abbrev pub number : Text
number = b'N' ∷ b'1' ∷ []

abbrev pub trade : Text
trade = b'T' ∷ b'1' ∷ []

abbrev pub code : Text
code = b'V' ∷ b'1' ∷ []

abbrev pub token : Text
token = b'S' ∷ b'1' ∷ []

abbrev pub early : Time
early = pos 1000

abbrev pub late : Time
late = pos (10 * day_ns)

-- The phone's row: paid for until the end of day 20.
abbrev pub phone_row : Mac
phone_row = new_mac 1 phone [] (pos (20 * day_ns)) (some 7) (pos 0)

abbrev pub order_with : OrderStatus → Order
order_with s = record {
  id = 1;
  order_no = number;
  mac = phone;
  plan = month;
  days = 30;
  amount_cents = 2000;
  status = s;
  payment_method = [];
  trade_no = [];
  user_id = some 7;
  last_queried_at = none;
  paid_at = none;
  created_at = pos 0;
}

abbrev pub voucher : Voucher
voucher = new_voucher 1 code 30 [] [] none (pos 0)

abbrev pub session : Session
session = new_session token SessionKind.user phone (some 7) (pos day_ns) (pos 0)

-- The owner of the phone, with a trusted browser and a backup code.
abbrev pub owner : User
owner = new_user 7 (b'1' ∷ b'3' ∷ []) (b'H' ∷ []) (pos 0)

abbrev pub laptop_trust : TrustedDevice
laptop_trust = new_trusted_device 1 7 trade [] (pos day_ns) (pos 0)

abbrev pub backup : BackupCode
backup = record { id = 1; user_id = 7; code_hash = trade; used_at = none; created_at = pos 0 }

abbrev pub tables : OrderStatus → Db
tables s = record {
  macs = phone_row ∷ [];
  mac_seq = 1;
  orders = order_with s ∷ [];
  order_seq = 1;
  vouchers = voucher ∷ [];
  voucher_seq = 1;
  sessions = session ∷ [];
  users = owner ∷ [];
  user_seq = 7;
  trusted = laptop_trust ∷ [];
  trusted_seq = 1;
  backup_codes = backup ∷ [];
  backup_seq = 1;
  resets = [];
  reset_seq = 0;
}

pub tables-IsValid : (s : OrderStatus) → IsValid (tables s)
unfolding get find
tables-IsValid s = record {
  macs_unique = (refl, tt);
  macs_ascend = (omega arith, omega arith);
  orders_unique = (refl, tt);
  vouchers_unique = (refl, tt);
  sessions_unique = (refl, tt);
  users_unique = (refl, tt);
}

-- A set in memory: a delete with an element that is not there fails, and changes nothing.
abbrev pub exec : Command → List Text → Outcome × List Text
exec (add_element ms) s = (done, ms ++ s)
exec (delete_element ms) s =
    if all (λ m. among m s) ms
    then (done, delete_where (λ x. among x ms) s)
    else (failed false true, s)
exec flush_set s = (done, [])

abbrev pub memory : Nft
memory = record { State = List Text; exec = exec; member = among }

among-append : (k : Text) (xs ys : List Text) → among k (xs ++ ys) ≡ (among k xs || among k ys)
unfolding any
among-append k [] ys = refl
among-append k (x ∷ xs) ys = ground (arith, among-append k xs ys)

among-delete_where :
    (k : Text) (ms s : List Text)
    → among k (delete_where (λ x. among x ms) s) ≡ (not (among k ms) && among k s)
unfolding any delete_where
among-delete_where k ms [] = ground arith
among-delete_where k ms (x ∷ s) = elim (Bool-cases (text_eq k x)) [
  | inl e ↦
      let same : among x ms ≡ among k ms = ap (λ z. among z ms) (sym (text_eq-eq k x e)) in
      ground (arith, among-delete_where k ms s)
  | inr e ↦ ground (arith, among-delete_where k ms s)
]

pub memory-IsNft : IsNft memory
unfolding any all
memory-IsNft = record {
  add_done = λ ms s k h. among-append k ms s;
  add_failed = λ ms s k there missing h. absurd (ground arith);
  add_exists = λ m s missing h. absurd (ground arith);
  delete_done = λ ms s k h. ground (arith, among-delete_where k ms s);
  delete_failed = λ ms s k there missing h. ground arith;
  delete_missing = λ m s there missing h some_error. ground arith;
  flush_done = λ s k h. refl;
  flush_failed = λ s k there missing h. absurd (ground arith);
}

abbrev pub router : OrderStatus → Router (List Text)
router s = record { db = tables s; set = phone ∷ [] }

abbrev pub app : OrderStatus → App (List Text)
app s = record {
  router = router s;
  waiters = [];
  signaled = [];
  next_channel = 0;
  audits = [];
  events = [];
  limits = new_limits;
  tries = [];
  sms_log = [];
  api_limits = [];
}
