-- ===== src/H2Stream.antt =====
-- `H2Reader` and `H2Writer` of src/h2_stream.rs. What h2's streams answer is an argument: the
-- sequence of results of `poll_data`, and what each `send_data` says.
pub mod Reading
pub mod Draining
pub mod Writing
use mathlib.Core.Bool.{Bool, true, false}
use argo_rust.Base.{
  ℕ, zero, suc, ◌+◌, List, [], ◌∷◌, ◌++◌, length, take, drop, min, Str, Result, ok, err,
}
use argo_rust.CapnpRpc.Bytes.{Bytes}

-- What `RecvStream::poll_data` answers.
pub data Polled : Type 0 where
  waiting : Polled
  data_frame : Bytes → Polled
  failed : Str → Polled

pub data Poll {ℓ} (A : Type ℓ) : Type ℓ where
  pending : Poll A
  ready : Result Str A → Poll A

-- `recv` is what the stream still answers, and then `None`; `released` the capacity given back.
pub record H2Reader : Type 0 where
  pub recv : List Polled
  pub released : ℕ
  pub buf : Bytes

unfoldable pub new_reader : List Polled → H2Reader
new_reader recv = record { recv = recv; released = 0; buf = [] }

-- The part of a poll behind the local buffer.
abbrev poll_data : H2Reader → List Polled → ℕ → Poll Bytes × H2Reader
poll_data r [] out = (ready (ok []), r)
poll_data r (waiting ∷ recv) out = (pending, record r { recv = recv })
poll_data r (failed e ∷ recv) out = (ready (err e), record r { recv = recv })
poll_data r (data_frame bytes ∷ recv) out =
    let n = min out (length bytes) in
    (
      ready (ok (take n bytes)),
      record r { recv = recv; released = r.released + length bytes; buf = r.buf ++ drop n bytes },
    )

abbrev poll_buf : H2Reader → Bytes → ℕ → Poll Bytes × H2Reader
poll_buf r [] out = poll_data r r.recv out
poll_buf r (b ∷ bs) out =
    let n = min out (length (b ∷ bs)) in
    (ready (ok (take n (b ∷ bs))), record r { buf = drop n (b ∷ bs) })

-- A poll into a slice of `out` bytes. The bytes it answers are those it writes to the slice's
-- start, and the number that the code returns is how many they are.
unfoldable pub poll_read : H2Reader → ℕ → Poll Bytes × H2Reader
poll_read r out = poll_buf r r.buf out

-- `S` is the state of a `SendStream` and `send_data` its method.
module _ {S : Type 0} (send_data : S → Bytes → Bool → Result Str (Unit {0}) × S) where
  abbrev pub written : ℕ → Result Str (Unit {0}) × S → Poll ℕ × S
  written n (ok u, s) = (ready (ok n), s)
  written n (err e, s) = (ready (err e), s)

  unfoldable pub poll_write : S → Bytes → Poll ℕ × S
  poll_write s bytes = written (length bytes) (send_data s bytes false)

  unfoldable pub poll_flush : S → Poll (Unit {0}) × S
  poll_flush s = (ready (ok tt), s)

  unfoldable pub poll_close : S → Poll (Unit {0}) × S
  poll_close s = (ready (ok tt), (send_data s [] true).1)
