-- ===== src/Tunnel/Retry.antt =====
-- The loop at the end of `run_tunnel` in src/tunnel.rs.
use argo_rust.Base.{ℕ, ◌+◌, ◌*◌, ◌%◌, ◌^◌, min, List, [], ◌∷◌, Option, none, some}

-- How `connect_and_serve` ended: with `Ok(())` or with an error.
pub data Attempt : Type 0 where
  served : Attempt
  failed : Attempt

-- The variables of the loop; `backoff` is in seconds.
pub record RetryState : Type 0 where
  pub backoff : ℕ
  pub addr_idx : ℕ

abbrev pub start : RetryState
start = record { backoff = 1; addr_idx = 0 }

abbrev pub next_state : RetryState → Attempt → RetryState
next_state r served = record { backoff = 1; addr_idx = (r.addr_idx + 1) % 2 ^ 64 }
next_state r failed = record {
  backoff = min (r.backoff * 2) 64;
  addr_idx = (r.addr_idx + 1) % 2 ^ 64;
}

abbrev pub slept : RetryState → Attempt → Option ℕ
slept r served = none
slept r failed = some r.backoff

-- `addr_idx` wraps, as in a build without overflow checks. One turn: the index that is connected to, the seconds slept afterwards, and the next state.
unfoldable pub turn : ℕ → RetryState → Attempt → ℕ × Option ℕ × RetryState
turn addrs r a = (r.addr_idx % addrs, slept r a, next_state r a)

-- The turns for a sequence of endings, over `addrs` addresses: which index, and which sleep.
unfoldable pub run : ℕ → RetryState → List Attempt → List (ℕ × Option ℕ)
unfolding turn
run addrs r [] = []
run addrs r (a ∷ rest) = let (i, wait, r') = turn addrs r a in (i, wait) ∷ run addrs r' rest

-- The state after them.
unfoldable pub state_after : ℕ → RetryState → List Attempt → RetryState
unfolding turn
state_after addrs r [] = r
state_after addrs r (a ∷ rest) = let (i, wait, r') = turn addrs r a in state_after addrs r' rest
