-- ===== src/Server/Wait.antt =====
-- internal/server/wait.go: who waits for an order, and how a payment wakes them.
pub mod Signal
use router_billing.Prelude.{
  ℕ, ◌+◌, Bool, true, false, not, ◌&&◌, List, [], ◌∷◌, ◌++◌, map, Text, text_eq, ◌==◌,
  if◌then◌else◌, keep, any,
}
use router_billing.Prelude.Table.{delete_where}
use router_billing.Server.{App, Waiter}

abbrev pub waits_for : Text → Waiter → Bool
waits_for number w = text_eq w.order_no number

-- `select { case ch <- struct{}{}: default: }` on a channel with room for one token.
abbrev pub poke : List ℕ → ℕ → List ℕ
poke full c = if any (λ x. x == c) full then full else c ∷ full

unfoldable pub poke_all : List ℕ → List Waiter → List ℕ
poke_all full [] = full
poke_all full (w ∷ ws) = poke_all (poke full w.channel) ws

module _ {S : Type 0} where
  -- `waitFor`: a new channel, last in the order's list.
  unfoldable pub wait_for : Text → App S → ℕ × App S
  wait_for number a = (
    a.next_channel,
    record a {
      waiters = a.waiters ++ record { order_no = number; channel = a.next_channel } ∷ [];
      next_channel = a.next_channel + 1;
    },
  )

  -- `unwait`
  unfoldable pub unwait : Text → ℕ → App S → App S
  unwait number channel a = record a {
    waiters = delete_where (λ w. waits_for number w && w.channel == channel) a.waiters;
  }

  -- `signalOrder`
  unfoldable pub signal_order : Text → App S → App S
  signal_order number a = record a {
    waiters = delete_where (waits_for number) a.waiters;
    signaled = poke_all a.signaled (keep (waits_for number) a.waiters);
  }
