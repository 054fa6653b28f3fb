-- ===== src/Server/Wait/Signal.antt =====
-- `signalOrder`: every browser that waits for the order is woken, and no other.
use router_billing.Prelude.{
  ℕ, ◌≡◌, refl, subst, Bool, true, false, ◌||◌, not, List, [], ◌∷◌, Text, arith, inl, inr,
  Bool-cases, ◌==◌, All,
}
use router_billing.Prelude.Lists.{keep, any}
use router_billing.Prelude.Table.{delete_where, delete_where-All}
use router_billing.Server.{App, Waiter}
use router_billing.Server.Wait.{waits_for, poke, poke_all, signal_order}

abbrev pub holds_token : List ℕ → ℕ → Bool
holds_token full c = any (λ x. x == c) full

-- A poke puts a token into its channel and takes none out of another.
poke-holds :
    (full : List ℕ) (c k : ℕ) → holds_token (poke full c) k ≡ (c == k || holds_token full k)
unfolding any
poke-holds full c k = elim (Bool-cases (holds_token full c)) [
  | inl y ↦ elim (Bool-cases (c == k)) [
    | inl e ↦
        let same : c ≡ k = ground arith in
        let there : holds_token full k ≡ true = subst (λ x. holds_token full x ≡ true) same y in
        ground arith
    | inr e ↦ ground arith
  ]
  | inr n ↦ ground arith
]

poke_all-holds :
    (full : List ℕ) (ws : List Waiter) (k : ℕ)
    → holds_token (poke_all full ws) k ≡ (any (λ w. w.channel == k) ws || holds_token full k)
unfolding any poke_all
poke_all-holds full [] k = refl
poke_all-holds full (w ∷ ws) k =
    ground (arith, poke_all-holds (poke full w.channel) ws k, poke-holds full w.channel k)

delete-keep :
    {A : Type 0} (p : A → Bool) (xs : List A) → delete_where p xs ≡ keep (λ x. not (p x)) xs
unfolding delete_where keep
delete-keep p [] = refl
delete-keep p (x ∷ xs) = ground (arith, delete-keep p xs)

-- A signal takes the waiters of the order out and leaves the others in place. A channel holds a token
-- afterwards if one of those waiters owns it, or if it held one before.
pub signal_order_lem :
    {S : Type 0} (number : Text) (a : App S)
    → let a' = signal_order number a in
      (a'.waiters ≡ keep (λ w. not (waits_for number w)) a.waiters)
      × All (λ w. waits_for number w ≡ false) a'.waiters
      × ((c : ℕ)
          → holds_token a'.signaled c ≡ (
              any (λ w. w.channel == c) (keep (waits_for number) a.waiters)
              || holds_token a.signaled c))
unfolding signal_order
signal_order_lem number a = (
  delete-keep (waits_for number) a.waiters,
  delete_where-All (waits_for number) a.waiters,
  λ c. poke_all-holds a.signaled (keep (waits_for number) a.waiters) c,
)
