-- ===== src/Origin/HeadReader.antt =====
-- A reader of the head of an HTTP/1.1 message, by the rule for its lines.
use mathlib.Core.Option
use argo_rust.Base.{
  ℕ, ◌≡◌, ◌≢◌, ◌==◌, ◌&&◌, refl, ap, ◌∙◌, Bool, true, false, List, [], ◌∷◌, ◌++◌, Option, none,
  some, Str, All, if◌then◌else◌,
}
use argo_rust.CapnpRpc.Bytes.{Bytes}
use argo_rust.Origin.{crlf}

abbrev with_char : ℕ → List Str × Bytes → List Str × Bytes
with_char c ([], body) = ((c ∷ []) ∷ [], body)
with_char c (line ∷ lines, body) = ((c ∷ line) ∷ lines, body)

abbrev pub with_line : Str → List Str × Bytes → List Str × Bytes
with_line line (lines, body) = (line ∷ lines, body)

-- The lines of the head, each up to its CR LF, and the body behind the empty line. The flag says
-- whether a line begins.
unfoldable pub read_head : Bool → Bytes → Option (List Str × Bytes)
read_head start [] = none
read_head start (c ∷ []) = none
read_head start (c ∷ d ∷ rest) =
    let next_line = read_head true rest in
    let next_char = read_head false (d ∷ rest) in
    if c == 13 && d == 10
    then (if start then some ([], rest) else Option.map (λ r. with_line [] r) next_line)
    else Option.map (λ r. with_char c r) next_char

-- A text without a carriage return.
abbrev pub NoReturn : Str → Type 0
NoReturn s = All (λ c. (c == 13) ≡ false) s

with_char-line :
    (c : ℕ) (line : Str) (o : Option (List Str × Bytes))
    → Option.map (λ r. with_char c r) (Option.map (λ r. with_line line r) o)
      ≡ Option.map (λ r. with_line (c ∷ line) r) o
with_char-line c line none = refl
with_char-line c line (some (lines, body)) = refl

read_line :
    (line : Str) (rest : Bytes)
    → NoReturn line
    → read_head false (line ++ (crlf ++ rest))
      ≡ Option.map (λ r. with_line line r) (read_head true rest)
unfolding read_head
read_line [] rest h = refl
read_line (c ∷ []) rest (p, h) = rw p (with_char-line c [] (read_head true rest))
read_line (c ∷ d ∷ line) rest (p, h) = rw p (
    ap (λ o. Option.map (λ r. with_char c r) o) (read_line (d ∷ line) rest h)
    ∙ with_char-line c (d ∷ line) (read_head true rest))

-- A line that is not empty is read as it is.
read_first :
    (c : ℕ) (line : Str) (rest : Bytes)
    → NoReturn (c ∷ line)
    → read_head true (c ∷ (line ++ (crlf ++ rest)))
      ≡ Option.map (λ r. with_line (c ∷ line) r) (read_head true rest)
unfolding read_head
read_first c [] rest (p, h) = rw p (with_char-line c [] (read_head true rest))
read_first c (d ∷ line) rest (p, h) = rw p (
    ap (λ o. Option.map (λ r. with_char c r) o) (read_line (d ∷ line) rest h)
    ∙ with_char-line c (d ∷ line) (read_head true rest))

pub read_end : (body : Bytes) → read_head true (crlf ++ body) ≡ some ([], body)
unfolding read_head
read_end body = refl

abbrev pub with_lines : List Str → List Str × Bytes → List Str × Bytes
with_lines more (lines, body) = (more ++ lines, body)

pub read_nonempty :
    (line : Str) (rest : Bytes)
    → line ≢ []
    → NoReturn line
    → read_head true (line ++ (crlf ++ rest))
      ≡ Option.map (λ r. with_line line r) (read_head true rest)
read_nonempty [] rest some_char h = absurd (some_char refl)
read_nonempty (c ∷ line) rest some_char h = read_first c line rest h

pub with_line-lines :
    (line : Str) (lines : List Str) (o : Option (List Str × Bytes))
    → Option.map (λ r. with_line line r) (Option.map (λ r. with_lines lines r) o)
      ≡ Option.map (λ r. with_lines (line ∷ lines) r) o
with_line-lines line lines none = refl
with_line-lines line lines (some (more, body)) = refl

pub with_lines-nil : (o : Option (List Str × Bytes)) → Option.map (λ r. with_lines [] r) o ≡ o
with_lines-nil none = refl
with_lines-nil (some (more, body)) = refl

pub one_line :
    (line : Str) (o : Option (List Str × Bytes))
    → Option.map (λ r. with_line line r) o ≡ Option.map (λ r. with_lines (line ∷ []) r) o
one_line line none = refl
one_line line (some (more, body)) = refl
