-- ===== src/Server/RateLimiter/Bound.antt =====
-- `allow`: when a hit is let through, and how many hits are kept.
use router_billing.Prelude.{ℕ, ◌≤◌, List, length, All}
use router_billing.Server.RateLimiter.{Entry}

abbrev pub IsBounded : ℕ → List Entry → Type 0
IsBounded max = All (λ e. length e.times ≤ max)
