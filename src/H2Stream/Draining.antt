-- ===== src/H2Stream/Draining.antt =====
-- That polls drain the stream.
use argo_rust.Base.{
  ℕ, ◌+◌, ◌-◌, ◌<◌, ◌≤◌, ◌≡◌, refl, sym, ap, ◌∙◌, List, [], ◌∷◌, ◌++◌, append-nil, length,
  length-append, take, drop, take-append-drop, length-take, min, All, arith,
}
use argo_rust.CapnpRpc.Bytes.{Bytes}
use argo_rust.H2Stream.{Polled, waiting, data_frame, failed, H2Reader, poll_read}
use argo_rust.H2Stream.Reading.{frames, outstanding, reads, reads-conserves}

-- The polls that the stream needs at most, with slices of one byte.
abbrev pub remaining : H2Reader → ℕ
remaining r = length r.buf + length (frames r.recv) + length r.recv

dropped : (n : ℕ) (xs : Bytes) → length (take n xs) + length (drop n xs) ≡ length xs
dropped n xs = omega (
  arith,
  length-append {0} (take n xs) (drop n xs),
  ap (λ (r : Bytes). length r) (take-append-drop n xs),
)

poll_buf_progress :
    (recv : List Polled) (n : ℕ) (buf : Bytes) (out : ℕ)
    → 0 < out
    → let r : H2Reader = record { recv = recv; released = n; buf = buf } in
      remaining (poll_read r out).1 ≤ remaining r - 1
unfolding poll_read
poll_buf_progress [] n [] out h = omega arith
poll_buf_progress (waiting ∷ recv) n [] out h = omega arith
poll_buf_progress (failed e ∷ recv) n [] out h = omega arith
poll_buf_progress (data_frame bytes ∷ recv) n [] out h =
    let k : ℕ = min out (length bytes) in
    omega (arith, dropped k bytes, length-append {0} bytes (frames recv))
poll_buf_progress recv n (b ∷ bs) out h =
    let k : ℕ = min out (length (b ∷ bs)) in
    omega (arith, dropped k (b ∷ bs), length-take k (b ∷ bs))

empty : (xs : Bytes) → length xs ≡ 0 → xs ≡ []
empty [] e = refl
empty (x ∷ xs) e = absurd (omega arith)

reads-empties :
    (outs : List ℕ) (r : H2Reader)
    → All (λ out. 0 < out) outs
    → remaining r ≤ length outs
    → outstanding (reads r outs).1 ≡ []
reads-empties [] r h few =
    empty (outstanding r) (omega (arith, length-append {0} r.buf (frames r.recv)))
reads-empties (out ∷ outs) r (p, h) few =
    let step = poll_buf_progress r.recv r.released r.buf out p in
    reads-empties outs (poll_read r out).1 h (omega arith)

-- Enough polls deliver all bytes that the peer sends, whatever the sizes of the frames and slices.
pub reads-remaining :
    (outs : List ℕ) (r : H2Reader)
    → All (λ out. 0 < out) outs
    → remaining r ≤ length outs
    → (reads r outs).0 ≡ outstanding r
reads-remaining outs r h few =
    sym (append-nil (reads r outs).0)
    ∙ sym (ap (λ (b : Bytes). (reads r outs).0 ++ b) (reads-empties outs r h few))
    ∙ reads-conserves outs r
