-- ===== src/H2Stream/Reading.antt =====
-- What a run of `poll_read` delivers.
use argo_rust.Base.{
  ℕ, zero, suc, ◌+◌, ◌<◌, ◌≤◌, ◌≡◌, ◌≢◌, ◌↔◌, refl, sym, ap, subst, ◌∙◌, List, [], ◌∷◌, ◌++◌,
  append_assoc, length, length-append, take, drop, take-append-drop, length-take, min, ok, err,
  arith,
}
use argo_rust.CapnpRpc.Bytes.{Bytes}
use argo_rust.H2Stream.{
  Polled, waiting, data_frame, failed, Poll, pending, ready, H2Reader, poll_read,
}

-- The bytes that the peer still sends, over all frames.
abbrev pub frames : List Polled → Bytes
frames [] = []
frames (waiting ∷ recv) = frames recv
frames (failed e ∷ recv) = frames recv
frames (data_frame bytes ∷ recv) = bytes ++ frames recv

-- The bytes that a poll wrote.
abbrev pub delivered : Poll Bytes → Bytes
delivered pending = []
delivered (ready (ok bytes)) = bytes
delivered (ready (err e)) = []

-- All bytes that are not yet delivered.
abbrev pub outstanding : H2Reader → Bytes
outstanding r = r.buf ++ frames r.recv

poll_buf_conserves :
    (recv : List Polled) (n : ℕ) (buf : Bytes) (out : ℕ)
    → let r : H2Reader = record { recv = recv; released = n; buf = buf } in
      delivered (poll_read r out).0 ++ outstanding (poll_read r out).1 ≡ buf ++ frames recv
unfolding poll_read
poll_buf_conserves [] n [] out = refl
poll_buf_conserves (waiting ∷ recv) n [] out = refl
poll_buf_conserves (failed e ∷ recv) n [] out = refl
poll_buf_conserves (data_frame bytes ∷ recv) n [] out =
    let k : ℕ = min out (length bytes) in
    sym (append_assoc (take k bytes) (drop k bytes) (frames recv))
    ∙ ap (λ (r : Bytes). r ++ frames recv) (take-append-drop k bytes)
poll_buf_conserves recv n (b ∷ bs) out =
    let k : ℕ = min out (length (b ∷ bs)) in
    sym (append_assoc (take k (b ∷ bs)) (drop k (b ∷ bs)) (frames recv))
    ∙ ap (λ (r : Bytes). r ++ frames recv) (take-append-drop k (b ∷ bs))

poll_read-conserves :
    (r : H2Reader) (out : ℕ)
    → delivered (poll_read r out).0 ++ outstanding (poll_read r out).1 ≡ outstanding r
poll_read-conserves r out = poll_buf_conserves r.recv r.released r.buf out

-- A run of polls with slices of the given sizes: what they deliver together.
abbrev pub reads : H2Reader → List ℕ → Bytes × H2Reader
reads r [] = ([], r)
reads r (out ∷ outs) =
    let (poll, r') = poll_read r out in
    let (rest, last) = reads r' outs in (delivered poll ++ rest, last)

-- Whatever the sizes of the slices: what was delivered, in order, and what is still to come are
-- the bytes that the peer sent.
pub reads-conserves :
    (outs : List ℕ) (r : H2Reader)
    → (reads r outs).0 ++ outstanding (reads r outs).1 ≡ outstanding r
reads-conserves [] r = refl
reads-conserves (out ∷ outs) r =
    let poll = (poll_read r out).0 in
    let r' = (poll_read r out).1 in
    append_assoc (delivered poll) (reads r' outs).0 (outstanding (reads r' outs).1)
    ∙ ap (λ (b : Bytes). delivered poll ++ b) (reads-conserves outs r')
    ∙ poll_read-conserves r out

-- The bytes whose flow-control capacity is not given back.
abbrev pub unreleased : H2Reader → ℕ
unreleased r = r.released + length (frames r.recv)

poll_buf_releases :
    (recv : List Polled) (n : ℕ) (buf : Bytes) (out : ℕ)
    → let r : H2Reader = record { recv = recv; released = n; buf = buf } in
      unreleased (poll_read r out).1 ≡ n + length (frames recv)
unfolding poll_read
poll_buf_releases [] n [] out = refl
poll_buf_releases (waiting ∷ recv) n [] out = refl
poll_buf_releases (failed e ∷ recv) n [] out = refl
poll_buf_releases (data_frame bytes ∷ recv) n [] out =
    omega (arith, length-append {0} bytes (frames recv))
poll_buf_releases recv n (b ∷ bs) out = refl

-- The capacity of each frame is released when the frame is taken, and only then.
pub reads-releases : (outs : List ℕ) (r : H2Reader) → unreleased (reads r outs).1 ≡ unreleased r
reads-releases [] r = refl
reads-releases (out ∷ outs) r =
    reads-releases outs (poll_read r out).1 ∙ poll_buf_releases r.recv r.released r.buf out

-- A poll answers at most as many bytes as the slice has room for.
abbrev pub FitsIn : ℕ → Poll Bytes → Type 0
FitsIn out p = length (delivered p) ≤ out

poll_buf_fits :
    (recv : List Polled) (n : ℕ) (buf : Bytes) (out : ℕ)
    → FitsIn out (poll_read (record { recv = recv; released = n; buf = buf }) out).0
unfolding poll_read
poll_buf_fits [] n [] out = omega arith
poll_buf_fits (waiting ∷ recv) n [] out = omega arith
poll_buf_fits (failed e ∷ recv) n [] out = omega arith
poll_buf_fits (data_frame bytes ∷ recv) n [] out =
    omega (arith, length-take (min out (length bytes)) bytes)
poll_buf_fits recv n (b ∷ bs) out = omega (arith, length-take (min out (length (b ∷ bs))) (b ∷ bs))

-- A poll answers at most as many bytes as its slice has room for.
pub poll_read-FitsIn : (r : H2Reader) (out : ℕ) → FitsIn out (poll_read r out).0
poll_read-FitsIn r out = poll_buf_fits r.recv r.released r.buf out

-- The stream is over, or its next frame is empty.
pub data EndsOrEmpty : List Polled → Type 0 where
  ends : EndsOrEmpty []
  empty_frame : (recv : List Polled) → EndsOrEmpty (data_frame [] ∷ recv)

not_some : (b : ℕ) (bs : Bytes) (out : ℕ) → 0 < out → take (min out (length (b ∷ bs))) (b ∷ bs) ≢ []
not_some b bs zero h e = absurd (omega arith)
not_some b bs (suc out) h e =
    let shape : length (take (min (suc out) (suc (length bs))) (b ∷ bs)) ≡ 0 =
      ap (λ (r : Bytes). length r) e in
    absurd (omega (arith, length-take (min (suc out) (length (b ∷ bs))) (b ∷ bs)))

poll_buf_eof :
    (recv : List Polled) (n : ℕ) (buf : Bytes) (out : ℕ)
    → 0 < out
    → (poll_read (record { recv = recv; released = n; buf = buf }) out).0 ≡ ready (ok [])
    → (buf ≡ []) × EndsOrEmpty recv
unfolding poll_read
poll_buf_eof [] n [] out h e = (refl, ends)
poll_buf_eof (waiting ∷ recv) n [] out h e = absurd cc
poll_buf_eof (failed m ∷ recv) n [] out h e = absurd cc
poll_buf_eof (data_frame [] ∷ recv) n [] out h e = (refl, empty_frame recv)
poll_buf_eof (data_frame (b ∷ bs) ∷ recv) n [] out h e =
    absurd (not_some b bs out h (ap (λ p. delivered p) e))
poll_buf_eof recv n (b ∷ bs) out h e = absurd (not_some b bs out h (ap (λ p. delivered p) e))

poll_buf_ends :
    (recv : List Polled) (n : ℕ) (out : ℕ)
    → EndsOrEmpty recv
    → (poll_read (record { recv = recv; released = n; buf = [] }) out).0 ≡ ready (ok [])
unfolding poll_read
poll_buf_ends [] n out ends = refl
poll_buf_ends recv n zero (empty_frame rest) = refl
poll_buf_ends recv n (suc out) (empty_frame rest) =
    let nothing : min (suc out) 0 ≡ 0 = omega arith in rw nothing refl

-- A slice that has room gets `Ok(0)`, which readers take for the end, exactly when nothing is
-- buffered and the stream is over or its next frame is empty.
pub poll_read-eof_iff :
    (r : H2Reader) (out : ℕ)
    → 0 < out
    → ((poll_read r out).0 ≡ ready (ok [])) ↔ ((r.buf ≡ []) × EndsOrEmpty r.recv)
poll_read-eof_iff r out h = (
  λ e. poll_buf_eof r.recv r.released r.buf out h e,
  λ (e, end).
      subst (λ (b : Bytes). (poll_read (record r { buf = b }) out).0 ≡ ready (ok [])) (sym e)
        (poll_buf_ends r.recv r.released out end),
)
