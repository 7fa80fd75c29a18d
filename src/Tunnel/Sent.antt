-- ===== src/Tunnel/Sent.antt =====
-- Which headers of a request of the edge an origin gets, behind `handle_proxy_stream` of src/tunnel.rs
-- and `forward_http` of src/origin.rs.
use argo_rust.Base.{
  not, ◌≡◌, ◌↔◌, ◌⊎◌, inl, inr, refl, sym, ap, subst, ◌∙◌, ℕ, Bool, true, false, Bool-cases, List,
  [], ◌∷◌, ◌++◌, map, Option, none, some, Option-cases, Str, codes, str_eq, str_eq_iff,
  if◌then◌else◌,
}
use argo_rust.CapnpRpc.Bytes.{Bytes}
use argo_rust.Config.{Lowering}
use argo_rust.Http.{HeaderMap, Uri, HttpLib}
use argo_rust.Origin.{is_hop_by_hop, raw_request}
use argo_rust.Origin.HeadReader.{read_head}
use argo_rust.Origin.RequestHead.{
  forwarded, HasPlainHead, request_line, host_line, length_lines, read_head-raw_request,
}
use argo_rust.Tunnel.Proxy.{Incoming, is_dropped, copy_headers, origin_request}

-- The entries of a list.
abbrev pub In : {A : Type 0} → A → List A → Type 0
In x [] = ⊥
In x (y ∷ ys) = (x ≡ y) ⊎ In x ys

-- What the crate http promises of an insertion into a header map, by what an iteration gives: under
-- the name stands the new value alone, and the entries of other names stay.
pub record InsertLaws (lib : HttpLib) : Type 0 where
  pub insert_self : (m : HeaderMap) (k : Str) (v w : Bytes) → In (k, w) (lib.insert m k v) ↔ (v ≡ w)
  pub insert_other :
      (m : HeaderMap) (k : Str) (v : Bytes) (n : Str) (w : Bytes)
      → str_eq k n ≡ false
      → In (n, w) (lib.insert m k v) ↔ In (n, w) m

-- The value that stands last under a name.
abbrev pub last_value : Str → HeaderMap → Option Bytes → Option Bytes
last_value name [] before = before
last_value name ((k, v) ∷ headers) before =
    last_value name headers (if str_eq k name then some v else before)

-- The entries under a name are the value, if there is one.
abbrev Represents : Str → HeaderMap → Option Bytes → Type 0
Represents name m o = (w : Bytes) → In (name, w) m ↔ (o ≡ some w)

-- A header as a line.
abbrev pub show : Str × Str → Str
show (k, text) = k ++ (codes ": " ++ text)

some-eq {ℓ} : {A : Type ℓ} {a b : A} → (a ≡ b) ↔ (some a ≡ some b)
some-eq = (λ e. ap some e, λ e. cc e)

trans_iff {ℓ κ μ} : {A : Type ℓ} {B : Type κ} {C : Type μ} → A ↔ B → B ↔ C → A ↔ C
trans_iff (f, g) (h, k) = (λ a. h (f a), λ c. g (k c))

-- Names of which one is dropped and one is not are different.
differ :
    {b : Bool} (k name : Str) → is_dropped k ≡ b → is_dropped name ≡ not b → str_eq k name ≡ false
differ {b = b} k name p q = elim (Bool-cases (str_eq k name)) [
  | inl same ↦
      absurd (apart b (sym (subst (λ n. is_dropped n ≡ b) ((str_eq_iff k name).0 same) p) ∙ q))
  | inr other ↦ other
]
  where
    apart : (b : Bool) → b ≡ not b → ⊥
    apart true e = cc e
    apart false e = cc e

module _ (lib : HttpLib) (wide : Lowering) (laws : InsertLaws lib) (name : Str) where
  insert-Represents :
      (m : HeaderMap) (k : Str) (v : Bytes) (o : Option Bytes)
      → Represents name m o
      → Represents name (lib.insert m k v) (if str_eq k name then some v else o)
  insert-Represents m k v o h w = elim (Bool-cases (str_eq k name)) [
    | inl same ↦ rw same (
        subst (λ n. In (n, w) (lib.insert m k v) ↔ (some v ≡ some w)) ((str_eq_iff k name).0 same)
          (trans_iff (laws.insert_self m k v w) some-eq))
    | inr other ↦ rw other (trans_iff (laws.insert_other m k v name w other) (h w))
  ]

  copied-Represents :
      (headers into : HeaderMap) (o : Option Bytes)
      → is_dropped name ≡ false
      → Represents name into o
      → Represents name (copy_headers lib wide headers into) (last_value name headers o)
  unfolding copy_headers
  copied-Represents [] into o kept h = h
  copied-Represents ((k, v) ∷ headers) into o kept h = elim (Bool-cases (is_dropped k)) [
    | inl dropped ↦
        rw (dropped, differ k name dropped kept) (copied-Represents headers into o kept h)
    | inr copied ↦ rw copied (
        copied-Represents headers (lib.insert into k v) (if str_eq k name then some v else o) kept
          (insert-Represents into k v o h))
  ]

  dropped-Represents :
      (headers into : HeaderMap) (o : Option Bytes)
      → is_dropped name ≡ true
      → Represents name into o
      → Represents name (copy_headers lib wide headers into) o
  unfolding copy_headers
  dropped-Represents [] into o dropped h = h
  dropped-Represents ((k, v) ∷ headers) into o dropped h = elim (Bool-cases (is_dropped k)) [
    | inl skipped ↦ rw skipped (dropped-Represents headers into o dropped h)
    | inr copied ↦ rw copied (
        dropped-Represents headers (lib.insert into k v) o dropped
          (λ w. trans_iff (laws.insert_other into k v name w (differ k name copied dropped)) (h w)))
  ]

module _ (lib : HttpLib) where
  -- The headers that `forward_http` writes, with their texts.
  abbrev pub sent : HeaderMap → List (Str × Str)
  sent [] = []
  sent ((k, v) ∷ headers) =
      let rest = sent headers in
      if is_hop_by_hop k
      then rest
      else (elim (lib.to_str v) [ none ↦ rest | some text ↦ (k, text) ∷ rest ])

  forwarded-sent : (headers : HeaderMap) → forwarded lib headers ≡ map show (sent headers)
  forwarded-sent [] = refl
  forwarded-sent ((k, v) ∷ headers) = elim (Bool-cases (is_hop_by_hop k)) [
    | inl hop ↦ rw hop (forwarded-sent headers)
    | inr kept ↦ elim (Option-cases (lib.to_str v)) [
      | inl no_text ↦ rw (kept, no_text) (forwarded-sent headers)
      | inr (text, e) ↦
          rw (kept, e) (ap (λ (r : List Str). show (k, text) ∷ r) (forwarded-sent headers))
    ]
  ]

  abbrev Passes : HeaderMap → Str → Str → Type 0
  Passes headers name text =
      (is_hop_by_hop name ≡ false) × (v : Bytes) × In (name, v) headers × (lib.to_str v ≡ some text)

  sent-Passes :
      (headers : HeaderMap) (name text : Str)
      → In (name, text) (sent headers)
      → Passes headers name text
  sent-Passes [] name text m = absurd m
  sent-Passes ((k, v) ∷ headers) name text m = elim (Bool-cases (is_hop_by_hop k)) [
    | inl hop ↦ later (sent-Passes headers name text (rw hop at m))
    | inr kept ↦ elim (Option-cases (lib.to_str v)) [
      | inl no_text ↦ later (sent-Passes headers name text (rw (kept, no_text) at m))
      | inr (t, e) ↦ entry t kept e (sent-Passes headers name text) (rw (kept, e) at m)
    ]
  ]
    where
      later : Passes headers name text → Passes ((k, v) ∷ headers) name text
      later (kept, w, m, e) = (kept, w, inr m, e)

      entry :
          (t : Str)
          → is_hop_by_hop k ≡ false
          → lib.to_str v ≡ some t
          → (In (name, text) (sent headers) → Passes headers name text)
          → In (name, text) ((k, t) ∷ sent headers)
          → Passes ((k, v) ∷ headers) name text
      entry t kept e others (inl same) = (
        subst (λ n. is_hop_by_hop n ≡ false) (sym (ap (λ p. p.0) same)) kept,
        v,
        inl (ap (λ p. (p.0, v)) same),
        e ∙ ap (λ p. some p.1) (sym same),
      )
      entry t kept e others (inr rest) = later (others rest)

  Passes-sent :
      (headers : HeaderMap) (name text : Str)
      → Passes headers name text
      → In (name, text) (sent headers)
  Passes-sent [] name text (kept, w, m, e) = absurd m
  Passes-sent ((k, v) ∷ headers) name text (kept, w, inl same, e) =
      let passes : is_hop_by_hop k ≡ false =
        subst (λ n. is_hop_by_hop n ≡ false) (ap (λ p. p.0) same) kept in
      let has_text : lib.to_str v ≡ some text =
        subst (λ b. lib.to_str b ≡ some text) (ap (λ p. p.1) same) e in
      rw (passes, has_text) (inl (ap (λ p. (p.0, text)) same))
  Passes-sent ((k, v) ∷ headers) name text (kept, w, inr m, e) =
      let rest = Passes-sent headers name text (kept, w, m, e) in
      elim (Bool-cases (is_hop_by_hop k)) [
        | inl hop ↦ rw hop rest
        | inr passes ↦ elim (Option-cases (lib.to_str v)) [
          | inl no_text ↦ rw (passes, no_text) rest
          | inr (t, has_text) ↦ rw (passes, has_text) (inr rest)
        ]
      ]

module _ (lib : HttpLib) (wide : Lowering) (laws : InsertLaws lib) where
  -- The text that a request has under a name for the origin: what `handle_proxy_stream` does not drop,
  -- `forward_http` passes on, and stands last under the name.
  abbrev pub Gets : Incoming → Str → Str → Type 0
  Gets req name text =
      (is_dropped name ≡ false)
      × (is_hop_by_hop name ≡ false)
      × (v : Bytes) × (last_value name req.headers none ≡ some v)
      × (lib.to_str v ≡ some text)

  empty-Represents : (name : Str) → Represents name [] none
  empty-Represents name w = (λ m. absurd m, λ e. absurd (cc e))

  sent_iff :
      (req : Incoming) (uri : Uri) (name text : Str)
      → In (name, text) (sent lib (origin_request lib wide req uri).headers) ↔ Gets req name text
  unfolding origin_request
  sent_iff req uri name text = (
    λ m.
        let (passes, v, entry, e) =
          sent-Passes lib (copy_headers lib wide req.headers []) name text m in
        elim (Bool-cases (is_dropped name)) [
          | inl dropped ↦ absurd (
              cc (
                (dropped-Represents lib wide laws name req.headers [] none dropped
                    (empty-Represents name) v).0
                  entry))
          | inr kept ↦ (
            kept,
            passes,
            v,
            (copied-Represents lib wide laws name req.headers [] none kept (empty-Represents name)
                  v).0
                entry,
            e,
          )
        ],
    λ (kept, passes, v, last, e). Passes-sent lib (copy_headers lib wide req.headers []) name text (
      passes,
      v,
      (copied-Represents lib wide laws name req.headers [] none kept (empty-Represents name) v).1
          last,
      e,
    ),
  )

  -- What a server reads from the bytes that `forward_http` writes for a request of the edge, where no
  -- carriage return stands in the head: the request line, the host, then a line for each of some
  -- headers, the length and the end of the connection, and the body. A name and a text are among
  -- those headers exactly when the text is that of the last value under the name, and the name is
  -- none of those that `handle_proxy_stream` drops and none of those that `forward_http` leaves out.
  pub raw_request-Gets :
      (req : Incoming) (uri : Uri) (host : Str) (port : ℕ)
      → HasPlainHead lib host (origin_request lib wide req uri)
      → (headers : List (Str × Str)) × (read_head true
            (raw_request lib host port (origin_request lib wide req uri))
          ≡ some (
            request_line lib (origin_request lib wide req uri)
                ∷ host_line lib host port
                ∷ (map show headers
                    ++ (length_lines lib (origin_request lib wide req uri).body
                        ++ codes "Connection: close" ∷ [])),
            (origin_request lib wide req uri).body,
          ))
        × ((name text : Str) → In (name, text) headers ↔ Gets req name text)
  raw_request-Gets req uri host port plain =
      let built = origin_request lib wide req uri in
      (
        sent lib built.headers,
        subst
            (λ lines.
              read_head true (raw_request lib host port built)
              ≡ some (
                request_line lib built
                    ∷ host_line lib host port
                    ∷ (lines ++ (length_lines lib built.body ++ codes "Connection: close" ∷ [])),
                built.body,
              ))
            (forwarded-sent lib built.headers) (read_head-raw_request lib host port built plain),
        sent_iff req uri,
      )
