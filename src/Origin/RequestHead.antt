-- ===== src/Origin/RequestHead.antt =====
-- What an HTTP/1.1 server reads from the bytes of `forward_http`.
use mathlib.Core.Option
use argo_rust.Base.{
  ℕ, ◌≡◌, ◌≢◌, ◌==◌, refl, sym, ap, ◌∙◌, true, false, List, [], ◌∷◌, ◌++◌, append_assoc, none, some,
  some_or, Str, codes, is_empty, decimal, decimal_no_return, length, All, All-append, Bool-cases,
  inl, inr, if◌then◌else◌, Option-cases,
}
use argo_rust.CapnpRpc.Bytes.{Bytes}
use argo_rust.Http.{HeaderMap, Request, HttpLib}
use argo_rust.Origin.{crlf, is_hop_by_hop, header_lines, raw_request}
use argo_rust.Origin.HeadReader.{
  read_head, NoReturn, with_line, with_lines, read_nonempty, with_line-lines, with_lines-nil,
  one_line, read_end,
}

module _ (lib : HttpLib) where
  -- The lines of the headers that are forwarded.
  abbrev pub forwarded : HeaderMap → List Str
  forwarded [] = []
  forwarded ((k, v) ∷ headers) =
      let rest = forwarded headers in
      if is_hop_by_hop k
      then rest
      else (elim (lib.to_str v) [ none ↦ rest | some text ↦ (k ++ (codes ": " ++ text)) ∷ rest ])

  -- A header has a name, and no carriage return in its name or text.
  pub record IsPlain (h : Str × Bytes) : Type 0 where
    pub named : h.0 ≢ []
    pub name : NoReturn h.0
    pub text : (t : Str) → lib.to_str h.1 ≡ some t → NoReturn t

  append-nonempty : (s t : Str) → s ≢ [] → s ++ t ≢ []
  append-nonempty [] t h e = h refl
  append-nonempty (c ∷ s) t h e = cc

  read_headers :
      (headers : HeaderMap) (rest : Bytes)
      → All IsPlain headers
      → read_head true (header_lines lib headers ++ rest)
        ≡ Option.map (λ r. with_lines (forwarded headers) r) (read_head true rest)
  unfolding header_lines
  read_headers [] rest h = sym (with_lines-nil (read_head true rest))
  read_headers ((k, v) ∷ headers) rest (p, h) = elim (Bool-cases (is_hop_by_hop k)) [
    | inl hop ↦ rw hop (read_headers headers rest h)
    | inr kept ↦ elim (Option-cases (lib.to_str v)) [
      | inl no_text ↦ rw (kept, no_text) (read_headers headers rest h)
      | inr (text, e) ↦
          let line : Str = k ++ (codes ": " ++ text) in
          let tail : Bytes = header_lines lib headers in
          let shape : ((k ++ (codes ": " ++ (text ++ crlf))) ++ tail) ++ rest
              ≡ line ++ (crlf ++ (tail ++ rest)) =
            simp append_assoc in
          let plain : NoReturn line =
            All-append (λ c. (c == 13) ≡ false) k (codes ": " ++ text) p.name
              (refl, (refl, p.text text e)) in
          rw (kept, e)
            (ap (λ b. read_head true b) shape
              ∙ read_nonempty line (tail ++ rest) (append-nonempty k _ p.named) plain
              ∙ ap (λ o. Option.map (λ r. with_line line r) o) (read_headers headers rest h)
              ∙ with_line-lines line (forwarded headers) (read_head true rest))
    ]
  ]

  -- The line that announces the body, if there is one.
  abbrev pub length_lines : Bytes → List Str
  length_lines [] = []
  length_lines (b ∷ body) = (codes "Content-Length: " ++ decimal (length (b ∷ body))) ∷ []

  abbrev length_bytes : Bytes → Bytes
  length_bytes body =
      if is_empty body then [] else codes "Content-Length: " ++ (decimal (length body) ++ crlf)

  plain-append : (s t : Str) → NoReturn s → NoReturn t → NoReturn (s ++ t)
  plain-append s t h k = All-append (λ c. (c == 13) ≡ false) s t h k

  content_length_plain : NoReturn (codes "Content-Length: ")
  content_length_plain = (
    refl,
    (
      refl,
      (
        refl,
        (
          refl,
          (
            refl,
            (
              refl,
              (refl, (refl, (refl, (refl, (refl, (refl, (refl, (refl, (refl, (refl, tt)))))))))),
            ),
          ),
        ),
      ),
    ),
  )

  read_length :
      (body rest : Bytes)
      → read_head true (length_bytes body ++ rest)
        ≡ Option.map (λ r. with_lines (length_lines body) r) (read_head true rest)
  read_length [] rest = sym (with_lines-nil (read_head true rest))
  read_length (b ∷ body) rest =
      let line : Str = codes "Content-Length: " ++ decimal (length (b ∷ body)) in
      let plain : NoReturn line =
        plain-append (codes "Content-Length: ") (decimal (length (b ∷ body))) content_length_plain
          (decimal_no_return (length (b ∷ body))) in
      let shape : (codes "Content-Length: " ++ (decimal (length (b ∷ body)) ++ crlf)) ++ rest
          ≡ line ++ (crlf ++ rest) =
        simp append_assoc in
      ap (λ s. read_head true s) shape
      ∙ read_nonempty line rest (append-nonempty (codes "Content-Length: ") _ (λ e. cc)) plain
      ∙ one_line line (read_head true rest)

  -- The two lines in front of the headers.
  abbrev pub request_line : Request → Str
  request_line req =
      req.method ++ (codes " " ++ (some_or req.uri.path_and_query (codes "/") ++ codes " HTTP/1.1"))

  abbrev pub host_line : Str → ℕ → Str
  host_line host port = codes "Host: " ++ (host ++ (codes ":" ++ decimal port))

  -- No carriage return stands in what the head is made of.
  pub record HasPlainHead (origin : Str) (req : Request) : Type 0 where
    pub method_named : req.method ≢ []
    pub method : NoReturn req.method
    pub path : NoReturn (some_or req.uri.path_and_query (codes "/"))
    pub host : NoReturn origin
    pub headers : All IsPlain req.headers

  module _ (host : Str) (port : ℕ) (req : Request) (h : HasPlainHead host req) where
    request_line_plain : NoReturn (request_line req)
    request_line_plain = plain-append req.method _ h.method (
      refl,
      plain-append (some_or req.uri.path_and_query (codes "/")) (codes " HTTP/1.1") h.path
          (refl, (refl, (refl, (refl, (refl, (refl, (refl, (refl, (refl, tt))))))))),
    )

    host_line_plain : NoReturn (host_line host port)
    host_line_plain = (
      refl,
      (
        refl,
        (refl, (refl, (refl, (refl, plain-append host _ h.host (refl, decimal_no_return port))))),
      ),
    )

    close_plain : NoReturn (codes "Connection: close")
    close_plain = (
      refl,
      (
        refl,
        (
          refl,
          (
            refl,
            (
              refl,
              (
                refl,
                (
                  refl,
                  (
                    refl,
                    (refl, (refl, (refl, (refl, (refl, (refl, (refl, (refl, (refl, tt))))))))),
                  ),
                ),
              ),
            ),
          ),
        ),
      ),
    )

    -- What a server reads, where no carriage return stands in the method, the path, the host and the
    -- headers: the request line, the host, the headers that are forwarded, the length of a body that is
    -- not empty, the end of the connection, and behind the empty line the body.
    pub read_head-raw_request :
        read_head true (raw_request lib host port req)
        ≡ some (
          request_line req
              ∷ host_line host port
              ∷ (forwarded req.headers
                  ++ (length_lines req.body ++ codes "Connection: close" ∷ [])),
          req.body,
        )
    unfolding raw_request decimal
    read_head-raw_request =
        let E : Bytes = codes "Connection: close" ++ (crlf ++ (crlf ++ req.body)) in
        let Y : Bytes = header_lines lib req.headers ++ (length_bytes req.body ++ E) in
        let X : Bytes = host_line host port ++ (crlf ++ Y) in
        let shape : raw_request lib host port req ≡ request_line req ++ (crlf ++ X) =
          simp append_assoc in
        let close : Str = codes "Connection: close" in
        let lengths : List Str = length_lines req.body ++ close ∷ [] in
        let lines : List Str = forwarded req.headers ++ lengths in
        let at_close : read_head true E ≡ some (close ∷ [], req.body) =
          read_nonempty close (crlf ++ req.body) (λ e. cc) close_plain
          ∙ ap (λ o. Option.map (λ r. with_line close r) o) (read_end req.body) in
        let at_length : read_head true (length_bytes req.body ++ E) ≡ some (lengths, req.body) =
          read_length req.body E
          ∙ ap (λ o. Option.map (λ r. with_lines (length_lines req.body) r) o) at_close in
        let at_headers : read_head true Y ≡ some (lines, req.body) =
          read_headers req.headers (length_bytes req.body ++ E) h.headers
          ∙ ap (λ o. Option.map (λ r. with_lines (forwarded req.headers) r) o) at_length in
        let at_host : read_head true X ≡ some (host_line host port ∷ lines, req.body) =
          read_nonempty (host_line host port) Y (λ e. cc) host_line_plain
          ∙ ap (λ o. Option.map (λ r. with_line (host_line host port) r) o) at_headers in
        ap (λ s. read_head true s) shape
        ∙ read_nonempty (request_line req) X (append-nonempty req.method _ h.method_named)
            request_line_plain
        ∙ ap (λ o. Option.map (λ r. with_line (request_line req) r) o) at_host
