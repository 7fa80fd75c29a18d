-- ===== src/Tests/Json.antt =====
-- A writer and a reader of JSON objects that invert each other: texts and lists stand behind their
-- lengths, values behind a tag.
use argo_rust.Base.{
  ℕ, zero, suc, List, [], ◌∷◌, ◌++◌, append_assoc, ◌≡◌, refl, ap, some, Option, Str, length, ◌==◌,
  if◌then◌else◌,
}
use argo_rust.CapnpRpc.Bytes.{Bytes}
use argo_rust.Payload.{Json, text, number, texts, JsonObject}

-- The first `n` numbers, and the rest.
abbrev split : ℕ → Bytes → Str × Bytes
split zero ts = ([], ts)
split (suc n) [] = ([], [])
split (suc n) (t ∷ ts) = let (front, rest) = split n ts in (t ∷ front, rest)

abbrev head_or : Bytes → ℕ
head_or [] = 0
head_or (t ∷ ts) = t

abbrev tail : Bytes → Bytes
tail [] = []
tail (t ∷ ts) = ts

abbrev put_text : Str → Bytes
put_text s = length s ∷ s

abbrev get_text : Bytes → Str × Bytes
get_text ts = split (head_or ts) (tail ts)

abbrev put_texts : List Str → Bytes
put_texts [] = []
put_texts (s ∷ ss) = put_text s ++ put_texts ss

abbrev get_texts : ℕ → Bytes → List Str × Bytes
get_texts zero ts = ([], ts)
get_texts (suc n) ts =
    let (s, rest) = get_text ts in let (ss, last) = get_texts n rest in (s ∷ ss, last)

abbrev put_json : Json → Bytes
put_json (text s) = 0 ∷ put_text s
put_json (number n) = 1 ∷ n ∷ []
put_json (texts ss) = 2 ∷ length ss ∷ put_texts ss

abbrev get_json : Bytes → Json × Bytes
get_json ts =
    let rest = tail ts in
    if head_or ts == 0
    then (let (s, last) = get_text rest in (text s, last))
    else if head_or ts == 1
    then (number (head_or rest), tail rest)
    else (let (ss, last) = get_texts (head_or rest) (tail rest) in (texts ss, last))

abbrev put_pairs : JsonObject → Bytes
put_pairs [] = []
put_pairs ((k, v) ∷ o) = put_text k ++ (put_json v ++ put_pairs o)

abbrev get_pairs : ℕ → Bytes → JsonObject
get_pairs zero ts = []
get_pairs (suc n) ts =
    let (k, after_key) = get_text ts in
    let (v, rest) = get_json after_key in (k, v) ∷ get_pairs n rest

abbrev pub write_object : JsonObject → Bytes
write_object o = length o ∷ put_pairs o

abbrev pub read_object : Bytes → Option JsonObject
read_object ts = some (get_pairs (head_or ts) (tail ts))

split-length : (s : Str) (ts : Bytes) → split (length s) (s ++ ts) ≡ (s, ts)
split-length [] ts = refl
split-length (c ∷ s) ts = rw (split-length s ts) refl

get_texts-put_texts :
    (ss : List Str) (ts : Bytes) → get_texts (length ss) (put_texts ss ++ ts) ≡ (ss, ts)
get_texts-put_texts [] ts = refl
get_texts-put_texts (s ∷ ss) ts =
    rw
      (
        append_assoc s (put_texts ss) ts,
        split-length s (put_texts ss ++ ts),
        get_texts-put_texts ss ts,
      )
      refl

get_json-put_json : (v : Json) (ts : Bytes) → get_json (put_json v ++ ts) ≡ (v, ts)
get_json-put_json (text s) ts = rw (split-length s ts) refl
get_json-put_json (number n) ts = refl
get_json-put_json (texts ss) ts = rw (get_texts-put_texts ss ts) refl

get_pairs-put_pairs : (o : JsonObject) → get_pairs (length o) (put_pairs o) ≡ o
get_pairs-put_pairs [] = refl
get_pairs-put_pairs ((k, v) ∷ o) =
    rw
      (
        split-length k (put_json v ++ put_pairs o),
        get_json-put_json v (put_pairs o),
        get_pairs-put_pairs o,
      )
      refl

pub read_object-write_object : (o : JsonObject) → read_object (write_object o) ≡ some o
read_object-write_object o = ap (λ (p : JsonObject). some p) (get_pairs-put_pairs o)
