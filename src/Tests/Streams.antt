-- ===== src/Tests/Streams.antt =====
-- The streams, the resolver and the retries at concrete inputs.
use argo_rust.Base.{
  ℕ, ◌≡◌, ◌↔◌, refl, Bool, false, ◌||◌, List, [], ◌∷◌, ◌++◌, some, arith, Str, codes, ok, err,
  Result, get_elem?, is_empty, replicate,
}
use mathlib.Core.List.{Permᴰ}
use mathlib.Core.List.Permᴰ
use argo_rust.CapnpRpc.Bytes.{Bytes}
use argo_rust.H2Stream.{waiting, data_frame, H2Reader, Poll, poll_read, poll_close, ready}
use argo_rust.H2Stream.Reading.{
  outstanding, reads, FitsIn, EndsOrEmpty, reads-conserves, poll_read-FitsIn, poll_read-eof_iff,
}
use argo_rust.H2Stream.Draining.{reads-remaining}
use argo_rust.H2Stream.Writing.{Sends, Delivers, Closes, writes, writes-sent}
use argo_rust.Edge.{SocketAddr, edge_hosts, resolve_edge_addrs}
use argo_rust.Edge.Resolved.{Chosen, resolve_edge_addrs-Chosen}
use argo_rust.Tunnel.Retry.{served, failed, start, run, state_after}
use argo_rust.Tunnel.Backoff.{sleeps, indices, schedule, run-schedule, run-round_robin}

-- Three bytes, a pause, an empty frame, and one byte.
abbrev reader : H2Reader
reader = record {
  recv = data_frame (1 ∷ 2 ∷ 3 ∷ []) ∷ waiting ∷ data_frame [] ∷ data_frame (4 ∷ []) ∷ [];
  released = 0;
  buf = [];
}

reads-conserves_example :
    (reads reader (2 ∷ 2 ∷ [])).0 ++ outstanding (reads reader (2 ∷ 2 ∷ [])).1 ≡ outstanding reader
reads-conserves_example = reads-conserves (2 ∷ 2 ∷ []) reader

poll_read-FitsIn_example : FitsIn 2 (poll_read reader 2).0
poll_read-FitsIn_example = poll_read-FitsIn reader 2

abbrev empty_next : H2Reader
empty_next = record { recv = data_frame [] ∷ data_frame (4 ∷ []) ∷ []; released = 3; buf = [] }

poll_read-eof_iff_example :
    ((poll_read empty_next 5).0 ≡ ready (ok []))
    ↔ ((empty_next.buf ≡ []) × EndsOrEmpty empty_next.recv)
poll_read-eof_iff_example = poll_read-eof_iff empty_next 5 (omega arith)

reads-remaining_example : (reads reader (2 ∷ 2 ∷ 2 ∷ 2 ∷ 2 ∷ 2 ∷ 2 ∷ 2 ∷ [])).0 ≡ 1 ∷ 2 ∷ 3 ∷ 4 ∷ []
reads-remaining_example =
    reads-remaining (2 ∷ 2 ∷ 2 ∷ 2 ∷ 2 ∷ 2 ∷ 2 ∷ 2 ∷ []) reader
      (
        omega arith,
        (
          omega arith,
          (
            omega arith,
            (omega arith, (omega arith, (omega arith, (omega arith, (omega arith, tt))))),
          ),
        ),
      )
      (omega arith)

-- A stream that takes frames of at most one byte; its state is what the peer has, and whether the
-- stream is over.
abbrev send_data : Bytes × Bool → Bytes → Bool → Result Str (Unit {0}) × (Bytes × Bool)
send_data (s, over) [] end = (ok tt, (s ++ [], end || over))
send_data (s, over) (a ∷ []) end = (ok tt, (s ++ a ∷ [], end || over))
send_data (s, over) (a ∷ b ∷ bytes) end = (err (codes "window"), (s, over))

abbrev peer_has : Bytes × Bool → Bytes
peer_has s = s.0

abbrev is_over : Bytes × Bool → Bool
is_over s = s.1

send_data-Sends : Sends send_data peer_has is_over
send_data-Sends = record { accepts = accepts; refuses = refuses }
  where
    accepts :
        (s : Bytes × Bool) (b : Bytes) (end : Bool)
        → (send_data s b end).0 ≡ ok tt
        → (peer_has (send_data s b end).1 ≡ peer_has s ++ b)
          × (is_over (send_data s b end).1 ≡ (end || is_over s))
    accepts s [] end e = (refl, refl)
    accepts s (a ∷ []) end e = (refl, refl)
    accepts s (a ∷ b ∷ bytes) end e = absurd (cc e)

    refuses :
        (s : Bytes × Bool) (b : Bytes) (end : Bool) (e : Str)
        → (send_data s b end).0 ≡ err e
        → (peer_has (send_data s b end).1 ≡ peer_has s)
          × (is_over (send_data s b end).1 ≡ is_over s)
    refuses s [] end e h = absurd (cc h)
    refuses s (a ∷ []) end e h = absurd (cc h)
    refuses s (a ∷ b ∷ bytes) end e h = (refl, refl)

abbrev buffers : List Bytes
buffers = (7 ∷ []) ∷ (1 ∷ 2 ∷ []) ∷ (8 ∷ []) ∷ []

abbrev after_writes : List (Poll ℕ) × (Bytes × Bool)
after_writes = writes send_data peer_has is_over ([], false) buffers

writes-sent_example :
    Delivers send_data peer_has is_over ([], false) buffers after_writes
    × Closes send_data peer_has is_over after_writes.1 (poll_close send_data after_writes.1)
writes-sent_example = writes-sent send_data peer_has is_over send_data-Sends buffers ([], false)

-- A resolver that is down.
abbrev down : Str → Result Str (List SocketAddr)
down host = err (codes "timeout")

abbrev in_order : List SocketAddr → List SocketAddr
in_order addrs = addrs

resolve_edge_addrs-Chosen_example :
    (addrs : List SocketAddr) × Chosen down edge_hosts addrs
    × (resolve_edge_addrs down in_order ≡ ok (in_order addrs))
    × Permᴰ (in_order addrs) addrs
    × (is_empty (in_order addrs) ≡ false)
resolve_edge_addrs-Chosen_example = resolve_edge_addrs-Chosen down in_order (λ xs. Permᴰ.refl xs)

run-schedule_example :
    sleeps (run 4 (state_after 4 start (failed ∷ served ∷ [])) (replicate 8 failed)) ≡ schedule 0 8
run-schedule_example = run-schedule 4 8 (failed ∷ [])

run-round_robin_example :
    get_elem? (indices (run 2 start (failed ∷ served ∷ failed ∷ []))) 2 ≡ some 0
run-round_robin_example =
    run-round_robin 2 (failed ∷ served ∷ failed ∷ []) 2 (omega arith) (omega arith)
