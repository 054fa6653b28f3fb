-- ===== src/Db/Invariant.antt =====
-- What holds of the tables between two calls: the UNIQUE columns, and ids that grow with the rows.
pub mod Ids
pub mod Steps
pub mod Runs
pub mod Accounts
use router_billing.Prelude.{
  ℕ, ◌+◌, ◌≤◌, ◌<◌, ◌≡◌, refl, Bool, true, false, Option, none, some, List, [], ◌∷◌, ◌++◌, Text,
  arith, inl, inr, Bool-cases, Option-cases, if◌then◌else◌,
}
use router_billing.Prelude.Table.{
  get, has_key, update_where, delete_where, IsUnique, update_where-IsUnique, delete_where-IsUnique,
  append-IsUnique, get-delete_where, delete_where-absent,
}
use router_billing.Models.{Time, Mac, Order, Voucher}
use router_billing.Db.{Db, Session, ok, err}
use router_billing.Db.Macs.{mac_key, find_mac, update_macs, insert_mac}
use router_billing.Db.Orders.{order_key, update_orders}
use router_billing.Db.Vouchers.{voucher_key, update_vouchers}
use router_billing.Db.Sessions.{session_key}
use router_billing.Db.Users.{phone_key}
use router_billing.Models.Accounts.{User}

-- AUTOINCREMENT: ids grow along the table, from above `low` up to the counter.
abbrev pub Ascends : ℕ → ℕ → List Mac → Type 0
Ascends low high [] = low ≤ high
Ascends low high (m ∷ ms) = (low < m.id) × Ascends m.id high ms

pub record IsValid (d : Db) : Type 0 where
  pub macs_unique : IsUnique mac_key d.macs
  pub macs_ascend : Ascends 0 d.mac_seq d.macs
  pub orders_unique : IsUnique order_key d.orders
  pub vouchers_unique : IsUnique voucher_key d.vouchers
  pub sessions_unique : IsUnique session_key d.sessions
  pub users_unique : IsUnique phone_key d.users

Ascends-update_where :
    (low high : ℕ) (p : Mac → Bool) (f : Mac → Mac) (ms : List Mac)
    → ((m : Mac) → (f m).id ≡ m.id)
    → Ascends low high ms
    → Ascends low high (update_where p f ms)
unfolding update_where
Ascends-update_where low high p f [] same a = a
Ascends-update_where low high p f (m ∷ ms) same (above, a) =
    ground (arith, same m, Ascends-update_where m.id high p f ms same a)

Ascends-lower :
    (low low' high : ℕ) (ms : List Mac) → low' ≤ low → Ascends low high ms → Ascends low' high ms
Ascends-lower low low' high [] h a = omega arith
Ascends-lower low low' high (m ∷ ms) h (above, a) = (omega arith, a)

Ascends-delete_where :
    (low high : ℕ) (p : Mac → Bool) (ms : List Mac)
    → Ascends low high ms
    → Ascends low high (delete_where p ms)
unfolding delete_where
Ascends-delete_where low high p [] a = a
Ascends-delete_where low high p (m ∷ ms) (above, a) =
    ground (
      arith,
      Ascends-delete_where m.id high p ms a,
      Ascends-lower m.id low high (delete_where p ms),
    )

Ascends-append :
    (low high : ℕ) (ms : List Mac) (m : Mac)
    → m.id ≡ high + 1
    → Ascends low high ms
    → Ascends low (high + 1) (ms ++ m ∷ [])
Ascends-append low high [] m e a = omega arith
Ascends-append low high (x ∷ ms) m e (above, a) = (above, Ascends-append x.id high ms m e a)

-- The statements, one lemma each.
module _ (d : Db) (v : IsValid d) where
  pub update_macs-IsValid :
      (p : Mac → Bool) (f : Mac → Mac)
      → ((m : Mac) → mac_key (f m) ≡ mac_key m)
      → ((m : Mac) → (f m).id ≡ m.id)
      → IsValid (update_macs p f d)
  update_macs-IsValid p f key id = record {
    macs_unique = update_where-IsUnique mac_key p f d.macs key v.macs_unique;
    macs_ascend = Ascends-update_where 0 d.mac_seq p f d.macs id v.macs_ascend;
    orders_unique = v.orders_unique;
    vouchers_unique = v.vouchers_unique;
    sessions_unique = v.sessions_unique;
    users_unique = v.users_unique;
  }

  pub insert_mac-IsValid :
      (mac label : Text) (expiry : Time) (owner : Option ℕ) (now : Time)
      → find_mac mac d ≡ none
      → IsValid (insert_mac mac label expiry owner now d)
  insert_mac-IsValid mac label expiry owner now fresh = record {
    macs_unique = append-IsUnique mac_key d.macs _ fresh v.macs_unique;
    macs_ascend = Ascends-append 0 d.mac_seq d.macs _ refl v.macs_ascend;
    orders_unique = v.orders_unique;
    vouchers_unique = v.vouchers_unique;
    sessions_unique = v.sessions_unique;
    users_unique = v.users_unique;
  }

  pub delete_macs-IsValid : (p : Mac → Bool) → IsValid (record d { macs = delete_where p d.macs })
  delete_macs-IsValid p = record {
    macs_unique = delete_where-IsUnique mac_key p d.macs v.macs_unique;
    macs_ascend = Ascends-delete_where 0 d.mac_seq p d.macs v.macs_ascend;
    orders_unique = v.orders_unique;
    vouchers_unique = v.vouchers_unique;
    sessions_unique = v.sessions_unique;
    users_unique = v.users_unique;
  }

  pub set_orders-IsValid :
      (os : List Order) (n : ℕ)
      → IsUnique order_key os
      → IsValid (record d { orders = os; order_seq = n })
  set_orders-IsValid os n u = record {
    macs_unique = v.macs_unique;
    macs_ascend = v.macs_ascend;
    orders_unique = u;
    vouchers_unique = v.vouchers_unique;
    sessions_unique = v.sessions_unique;
    users_unique = v.users_unique;
  }

  pub update_orders-IsValid :
      (p : Order → Bool) (f : Order → Order)
      → ((o : Order) → order_key (f o) ≡ order_key o)
      → IsValid (update_orders p f d)
  update_orders-IsValid p f key =
      set_orders-IsValid _ d.order_seq
        (update_where-IsUnique order_key p f d.orders key v.orders_unique)

  pub set_vouchers-IsValid :
      (vs : List Voucher) (n : ℕ)
      → IsUnique voucher_key vs
      → IsValid (record d { vouchers = vs; voucher_seq = n })
  set_vouchers-IsValid vs n u = record {
    macs_unique = v.macs_unique;
    macs_ascend = v.macs_ascend;
    orders_unique = v.orders_unique;
    vouchers_unique = u;
    sessions_unique = v.sessions_unique;
    users_unique = v.users_unique;
  }

  pub update_vouchers-IsValid :
      (p : Voucher → Bool) (f : Voucher → Voucher)
      → ((x : Voucher) → voucher_key (f x) ≡ voucher_key x)
      → IsValid (update_vouchers p f d)
  update_vouchers-IsValid p f key =
      set_vouchers-IsValid _ d.voucher_seq
        (update_where-IsUnique voucher_key p f d.vouchers key v.vouchers_unique)

  pub set_sessions-IsValid :
      (ss : List Session) → IsUnique session_key ss → IsValid (record d { sessions = ss })
  set_sessions-IsValid ss u = record {
    macs_unique = v.macs_unique;
    macs_ascend = v.macs_ascend;
    orders_unique = v.orders_unique;
    vouchers_unique = v.vouchers_unique;
    sessions_unique = u;
    users_unique = v.users_unique;
  }

  pub delete_sessions-IsValid :
      (p : Session → Bool) → IsValid (record d { sessions = delete_where p d.sessions })
  delete_sessions-IsValid p =
      set_sessions-IsValid _ (delete_where-IsUnique session_key p d.sessions v.sessions_unique)

  pub set_users-IsValid :
      (us : List User) (n : ℕ)
      → IsUnique phone_key us
      → IsValid (record d { users = us; user_seq = n })
  set_users-IsValid us n u = record {
    macs_unique = v.macs_unique;
    macs_ascend = v.macs_ascend;
    orders_unique = v.orders_unique;
    vouchers_unique = v.vouchers_unique;
    sessions_unique = v.sessions_unique;
    users_unique = u;
  }
