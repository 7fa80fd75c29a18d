-- ===== src/Tunnel/Backoff.antt =====
-- How long the loop sleeps, and which addresses it tries.
use argo_rust.Base.{
  ℕ, zero, suc, ◌+◌, ◌*◌, ◌%◌, ◌^◌, ◌<◌, ◌≤◌, ◌≡◌, min, refl, ap, ap₂, ◌∙◌, List, [], ◌∷◌, ◌++◌,
  Option, none, some, length, get_elem?, replicate, All, arith,
}
use argo_rust.Tunnel.Retry.{
  Attempt, served, failed, RetryState, start, next_state, run, state_after,
}

-- The sleep after the failure number `k` in a row, counted from 0.
abbrev pub doubled : ℕ → ℕ
doubled k = min (2 ^ k) 64

pow-suc : (k : ℕ) → 2 ^ suc k ≡ 2 * 2 ^ k
pow-suc k = omega arith

doubled-suc : (k : ℕ) → min (doubled k * 2) 64 ≡ doubled (suc k)
doubled-suc k = omega (arith, pow-suc k)

abbrev pub sleeps : List (ℕ × Option ℕ) → List (Option ℕ)
sleeps [] = []
sleeps ((i, wait) ∷ rest) = wait ∷ sleeps rest

abbrev pub indices : List (ℕ × Option ℕ) → List ℕ
indices [] = []
indices ((i, wait) ∷ rest) = i ∷ indices rest

abbrev pub schedule : ℕ → ℕ → List (Option ℕ)
schedule k zero = []
schedule k (suc n) = some (doubled k) ∷ schedule (suc k) n

failures :
    (n k addrs : ℕ) (r : RetryState)
    → r.backoff ≡ doubled k
    → sleeps (run addrs r (replicate n failed)) ≡ schedule k n
unfolding run
failures zero k addrs r e = refl
failures (suc n) k addrs r e =
    let next : min (r.backoff * 2) 64 ≡ doubled (suc k) = rw e (doubled-suc k) in
    ap₂ (λ (s : Option ℕ) (rest : List (Option ℕ)). s ∷ rest) (ap some e)
      (failures n (suc k) addrs (next_state r failed) next)

after_served :
    (addrs : ℕ) (r : RetryState) (before : List Attempt)
    → (state_after addrs r (before ++ served ∷ [])).backoff ≡ 1
unfolding state_after
after_served addrs r [] = refl
after_served addrs r (served ∷ before) = after_served addrs (next_state r served) before
after_served addrs r (failed ∷ before) = after_served addrs (next_state r failed) before

-- After a connection that ended well, whatever came before it, the failures that follow in a row
-- are slept 1, 2, 4, 8, 16, 32, 64, 64, … seconds each.
pub run-schedule :
    (addrs n : ℕ) (before : List Attempt)
    → sleeps (run addrs (state_after addrs start (before ++ served ∷ [])) (replicate n failed))
      ≡ schedule 0 n
run-schedule addrs n before =
    failures n 0 addrs (state_after addrs start (before ++ served ∷ []))
      (after_served addrs start before)

-- No sleep, or between one second and 64.
pub data IsShort : Option ℕ → Type 0 where
  no_sleep : IsShort none
  sleep : (n : ℕ) → 1 ≤ n → n ≤ 64 → IsShort (some n)

All-IsShort :
    (addrs : ℕ) (r : RetryState) (attempts : List Attempt)
    → 1 ≤ r.backoff
    → r.backoff ≤ 64
    → All IsShort (sleeps (run addrs r attempts))
unfolding run
All-IsShort addrs r [] h k = tt
All-IsShort addrs r (served ∷ rest) h k =
    (no_sleep, All-IsShort addrs (next_state r served) rest (omega arith) (omega arith))
All-IsShort addrs r (failed ∷ rest) h k =
    (sleep r.backoff h k, All-IsShort addrs (next_state r failed) rest (omega arith) (omega arith))

-- Every sleep of the loop, whatever the connections end with, is between one second and 64.
pub run-IsShort :
    (addrs : ℕ) (attempts : List Attempt) → All IsShort (sleeps (run addrs start attempts))
run-IsShort addrs attempts = All-IsShort addrs start attempts (omega arith) (omega arith)

index_at :
    (addrs : ℕ) (r : RetryState) (attempts : List Attempt) (k : ℕ)
    → k < length attempts
    → r.addr_idx + length attempts < 2 ^ 64
    → get_elem? (indices (run addrs r attempts)) k ≡ some ((r.addr_idx + k) % addrs)
unfolding run
index_at addrs r [] k h small = absurd (omega arith)
index_at addrs r (served ∷ rest) zero h small = ap (λ n. some (n % addrs)) (omega arith)
index_at addrs r (failed ∷ rest) zero h small = ap (λ n. some (n % addrs)) (omega arith)
index_at addrs r (served ∷ rest) (suc k) h small =
    let no_wrap : (r.addr_idx + 1) % 2 ^ 64 ≡ r.addr_idx + 1 = omega arith in
    index_at addrs (next_state r served) rest k (omega arith) (omega arith)
    ∙ ap (λ n. some (n % addrs)) (omega arith)
index_at addrs r (failed ∷ rest) (suc k) h small =
    index_at addrs (next_state r failed) rest k (omega arith) (omega arith)
    ∙ ap (λ n. some (n % addrs)) (omega arith)

-- The turns take the addresses in a circle: turn `k` of the loop takes address `k` modulo their
-- number, whatever the connections end with.
pub run-round_robin :
    (addrs : ℕ) (attempts : List Attempt) (k : ℕ)
    → k < length attempts
    → length attempts < 2 ^ 64
    → get_elem? (indices (run addrs start attempts)) k ≡ some (k % addrs)
run-round_robin addrs attempts k h small =
    index_at addrs start attempts k h (omega arith) ∙ ap (λ n. some (n % addrs)) (omega arith)
