-- ===== src/Server/RateLimiter.antt =====
-- internal/server/user.go, `rateLimiter`: at most `max` hits of a key in a sliding window.
pub mod Bound
use router_billing.Prelude.{
  ℕ, suc, ◌+◌, ◌*◌, Bool, true, false, not, ◌||◌, Option, none, some, List, [], ◌∷◌, ◌++◌, Text,
  text_eq, is_empty, length, leb, ltb, if◌then◌else◌, keep,
}
use router_billing.Prelude.Int.{ℤ, pos, ◌-ℤ◌}
use router_billing.Prelude.Table.{get, update_where, delete_where, has_key}
use router_billing.Models.{Time, after, before}

-- An entry of the map `hits`: the times of a key, oldest first.
pub record Entry : Type 0 where
  pub key : Text
  pub times : List Time

pub record Limiter : Type 0 where
  pub hits : List Entry
  pub max : ℕ
  -- a `time.Duration`, in nanoseconds
  pub window : ℤ

unfoldable pub new_rate_limiter : ℕ → ℤ → Limiter
new_rate_limiter max window = record { hits = []; max = max; window = window }

abbrev pub entry_key : Entry → Text
entry_key e = e.key

-- `rl.hits[key]`, the empty list where the key is missing.
abbrev pub times_of : Option Entry → List Time
times_of none = []
times_of (some e) = e.times

unfoldable pub hits_of : Text → Limiter → List Time
hits_of key rl = times_of (get entry_key key rl.hits)

-- `rl.hits[key] = times`
abbrev store : Option Entry → Text → List Time → List Entry → List Entry
store none key times es = es ++ record { key = key; times = times } ∷ []
store (some _) key times es =
    update_where (has_key entry_key key) (λ e. record e { times = times }) es

unfoldable pub set_hits : Text → List Time → List Entry → List Entry
set_hits key times es = store (get entry_key key es) key times es

-- `len(v) == 0 || v[len(v)-1].Before(cutoff)`
unfoldable pub is_idle : Time → List Time → Bool
is_idle cutoff [] = true
is_idle cutoff (t ∷ []) = before t cutoff
is_idle cutoff (t ∷ u ∷ ts) = is_idle cutoff (u ∷ ts)

-- The sweep over a map of more than 4096 keys.
unfoldable pub sweep : Time → List Entry → List Entry
sweep cutoff es = if ltb 4096 (length es) then delete_where (λ e. is_idle cutoff e.times) es else es

-- The loop that keeps the hits inside the window.
abbrev pub recent : Time → List Time → List Time
recent cutoff = keep (λ t. after t cutoff)

-- `allow`, called at the time `now`.
unfoldable pub allow : Text → Time → Limiter → Bool × Limiter
allow key now rl =
    if is_empty key
    then (true, rl)
    else (let cutoff = now -ℤ rl.window in
        let out = recent cutoff (hits_of key rl) in
        if leb rl.max (length out)
        then (false, record rl { hits = set_hits key out rl.hits })
        else (true, record rl { hits = sweep cutoff (set_hits key (out ++ now ∷ []) rl.hits) }))

-- The limiters of `App` that the modelled handlers ask.
pub record Limits : Type 0 where
  pub login : Limiter
  pub login_by_phone : Limiter
  pub register : Limiter
  pub redeem : Limiter
  pub reset_issue_ip : Limiter
  pub reset_issue_phone : Limiter
  pub reset_verify_ip : Limiter
  pub reset_verify_phone : Limiter

abbrev pub minute_ns : ℕ
minute_ns = 60_000_000_000

-- The limiters as `NewApp` makes them.
unfoldable pub new_limits : Limits
new_limits = record {
  login = new_rate_limiter 8 (pos (5 * minute_ns));
  login_by_phone = new_rate_limiter 5 (pos (5 * minute_ns));
  register = new_rate_limiter 4 (pos (60 * minute_ns));
  redeem = new_rate_limiter 10 (pos (10 * minute_ns));
  reset_issue_ip = new_rate_limiter 6 (pos (60 * minute_ns));
  reset_issue_phone = new_rate_limiter 3 (pos (60 * minute_ns));
  reset_verify_ip = new_rate_limiter 30 (pos (60 * minute_ns));
  reset_verify_phone = new_rate_limiter 10 (pos (60 * minute_ns));
}
