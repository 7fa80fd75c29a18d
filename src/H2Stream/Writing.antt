-- ===== src/H2Stream/Writing.antt =====
-- What a run of `poll_write` sends.
use mathlib.Core.Bool.{Bool, true, false, ◌||◌}
use argo_rust.Base.{
  ℕ, ◌≡◌, ◌⊎◌, inl, inr, Result-cases, refl, sym, ap, ◌∙◌, List, [], ◌∷◌, ◌++◌, append_assoc,
  append-nil, length, Str, Result, ok, err,
}
use argo_rust.CapnpRpc.Bytes.{Bytes}
use argo_rust.H2Stream.{Poll, ready, poll_write, poll_close, written}

-- What h2 promises of `send_data`: a frame that is accepted is sent behind the others and ends the
-- stream when it is marked as the last, and one that is refused changes nothing. `sent` is what the
-- peer gets, and `ended` whether the stream is over then.
pub record Sends {S : Type 0} (send_data : S → Bytes → Bool → Result Str (Unit {0}) × S)
    (sent : S → Bytes) (ended : S → Bool) : Type 0 where
  pub accepts :
      (s : S) (b : Bytes) (end : Bool)
      → (send_data s b end).0 ≡ ok tt
      → (sent (send_data s b end).1 ≡ sent s ++ b)
        × (ended (send_data s b end).1 ≡ (end || ended s))
  pub refuses :
      (s : S) (b : Bytes) (end : Bool) (e : Str)
      → (send_data s b end).0 ≡ err e
      → (sent (send_data s b end).1 ≡ sent s) × (ended (send_data s b end).1 ≡ ended s)

-- The answers to the writes of buffers, and the bytes that they say were taken: each write took its
-- whole buffer, and says so by the exact number, or failed and took nothing.
pub data Reports : List Bytes → List (Poll ℕ) → Bytes → Type 0 where
  none_left : Reports [] [] []
  took :
      (bytes : Bytes) {rest : List Bytes} {polls : List (Poll ℕ)} {out : Bytes}
      → Reports rest polls out
      → Reports (bytes ∷ rest) (ready (ok (length bytes)) ∷ polls) (bytes ++ out)
  lost :
      (bytes : Bytes) (e : Str) {rest : List Bytes} {polls : List (Poll ℕ)} {out : Bytes}
      → Reports rest polls out
      → Reports (bytes ∷ rest) (ready (err e) ∷ polls) out

module _ {S : Type 0} (send_data : S → Bytes → Bool → Result Str (Unit {0}) × S) (sent : S → Bytes)
    (ended : S → Bool) where
  -- The answers to one `poll_write` for each buffer.
  abbrev pub writes : S → List Bytes → List (Poll ℕ) × S
  writes s [] = ([], s)
  writes s (bytes ∷ rest) =
      let (poll, s') = poll_write send_data s bytes in
      let (polls, last) = writes s' rest in (poll ∷ polls, last)

  -- The peer has the bytes that the answers say were taken, behind what it had, and its stream is
  -- over only if it was before.
  abbrev pub Delivers : S → List Bytes → List (Poll ℕ) × S → Type 0
  Delivers s buffers (polls, last) =
      (out : Bytes) × Reports buffers polls out
      × (sent last ≡ sent s ++ out)
      × (ended last ≡ ended s)

  -- A write that is put in front of others.
  first-Delivers :
      (s : S) (bytes : Bytes) (rest : List Bytes) (x : Result Str (Unit {0}) × S)
      (polls : List (Poll ℕ)) (last : S)
      → (x.0 ≡ ok tt → (sent x.1 ≡ sent s ++ bytes) × (ended x.1 ≡ ended s))
      → ((e : Str) → x.0 ≡ err e → (sent x.1 ≡ sent s) × (ended x.1 ≡ ended s))
      → Delivers (written send_data (length bytes) x).1 rest (polls, last)
      → Delivers s (bytes ∷ rest) ((written send_data (length bytes) x).0 ∷ polls, last)
  first-Delivers s bytes rest (ok tt, s') polls last h k (out, reports, got, over) =
      let (more, same) = h refl in
      (
        bytes ++ out,
        took bytes reports,
        got ∙ ap (λ (b : Bytes). b ++ out) more ∙ append_assoc (sent s) bytes out,
        over ∙ same,
      )
  first-Delivers s bytes rest (err e, s') polls last h k (out, reports, got, over) =
      let (none_more, same) = k e refl in
      (out, lost bytes e reports, got ∙ ap (λ (b : Bytes). b ++ out) none_more, over ∙ same)

  writes-Delivers :
      Sends send_data sent ended
      → (buffers : List Bytes) (s : S) → Delivers s buffers (writes s buffers)
  unfolding poll_write
  writes-Delivers h [] s = ([], none_left, sym (append-nil (sent s)), refl)
  writes-Delivers h (bytes ∷ rest) s =
      let s' = (poll_write send_data s bytes).1 in
      first-Delivers s bytes rest (send_data s bytes false) (writes s' rest).0 (writes s' rest).1
        (h.accepts s bytes false) (h.refuses s bytes false) (writes-Delivers h rest s')

  -- Closing adds no byte and answers Ok(()). The stream is over then, unless h2 refuses to end it.
  abbrev pub Closes : S → Poll (Unit {0}) × S → Type 0
  Closes s (poll, last) =
      (poll ≡ ready (ok tt))
      × (sent last ≡ sent s)
      × ((ended last ≡ true)
          ⊎ ((e : Str) × ((send_data s [] true).0 ≡ err e) × (ended last ≡ ended s)))

  poll_close-Closes : Sends send_data sent ended → (s : S) → Closes s (poll_close send_data s)
  unfolding poll_close
  poll_close-Closes h s = elim (Result-cases ((send_data s [] true).0)) [
    | inl (tt, taken) ↦
        let (same, over) = h.accepts s [] true taken in (refl, same ∙ append-nil (sent s), inl over)
    | inr (e, refused) ↦
        let (same, open_still) = h.refuses s [] true e refused in
        (refl, same, inr (e, refused, open_still))
  ]

  -- By what h2 promises of `send_data`: after any writes the peer has exactly the bytes of those that
  -- say they took their whole buffer, in their order, each by the exact number, and none of those
  -- that failed; no write ends the stream. Closing then adds no byte and ends it, unless h2 refuses.
  pub writes-sent :
      Sends send_data sent ended
      → (buffers : List Bytes) (s : S)
      → Delivers s buffers (writes s buffers)
        × Closes (writes s buffers).1 (poll_close send_data (writes s buffers).1)
  writes-sent h buffers s = (writes-Delivers h buffers s, poll_close-Closes h (writes s buffers).1)
