-- ===== src/Certificates.antt =====
-- `cloudflare_ca_certs` of src/cf_ca.rs and `make_tls_config` of src/tunnel.rs. The text of the
-- certificates, the reader of the crate rustls_pemfile and the root store of the crate rustls are
-- arguments.
use argo_rust.Base.{
  ℕ, zero, suc, ◌<◌, List, [], ◌∷◌, Option, none, some, Str, Result, ok, err, length, ◌≡◌, refl,
  arith, and_then,
}
use argo_rust.CapnpRpc.Bytes.{Bytes}

-- An item of a PEM file, with its DER bytes.
pub data Item : Type 0 where
  x509_certificate : Bytes → Item
  other_item : Bytes → Item

-- `read_one`: what it answers, and what it leaves of the input.
abbrev pub ReadOne : Type 0
ReadOne = Bytes → Result Str (Option Item) × Bytes

-- The reader takes something of the input for an item.
abbrev pub Consumes : ReadOne → Type 0
Consumes read_one =
    (input : Bytes) (item : Item)
    → (read_one input).0 ≡ ok (some item)
    → length (read_one input).1 < length input

abbrev pub push : Item → List Bytes → List Bytes
push (x509_certificate der) certs = der ∷ certs
push (other_item der) certs = certs

-- The certificates among items.
abbrev pub certificates : List Item → List Bytes
certificates [] = []
certificates (x509_certificate der ∷ items) = der ∷ certificates items
certificates (other_item der ∷ items) = certificates items

push-certificates :
    (item : Item) (items : List Item) → push item (certificates items) ≡ certificates (item ∷ items)
push-certificates (x509_certificate der) items = refl
push-certificates (other_item der) items = refl

module _ (read_one : ReadOne) where
  -- The loop: `none` is a run that has not ended after so many rounds.
  unfoldable pub collect : ℕ → Bytes → Option (List Bytes)
  collect zero remaining = none
  collect (suc rounds) remaining = elim (read_one remaining).0 [
    | err e ↦ some []
    | ok found ↦ elim found [
      | none ↦ some []
      | some item ↦
          and_then (collect rounds (read_one remaining).1) (λ certs. some (push item certs))
    ]
  ]

  unfoldable pub cloudflare_ca_certs : Bytes → Option (List Bytes)
  cloudflare_ca_certs pem = collect (suc (length pem)) pem

  -- The items that the reader gives one after another, up to its first error or its end.
  pub data Items : Bytes → List Item → Type 0 where
    ended : {input : Bytes} → (read_one input).0 ≡ ok none → Items input []
    failed : {input : Bytes} (e : Str) → (read_one input).0 ≡ err e → Items input []
    found :
        {input : Bytes} (item : Item) {items : List Item}
        → (read_one input).0 ≡ ok (some item)
        → Items (read_one input).1 items
        → Items input (item ∷ items)

  abbrev Collected : ℕ → Bytes → Type 0
  Collected rounds input =
      (items : List Item) × Items input items × (collect rounds input ≡ some (certificates items))

  collect_step :
      (rounds : ℕ) (input : Bytes) (r : Result Str (Option Item))
      → (read_one input).0 ≡ r
      → ((item : Item) → (read_one input).0 ≡ ok (some item) → Collected rounds (read_one input).1)
      → Collected (suc rounds) input
  unfolding collect
  collect_step rounds input (err e) h later = ([], failed e h, rw (h, collect) refl)
  collect_step rounds input (ok none) h later = ([], ended h, rw (h, collect) refl)
  collect_step rounds input (ok (some item)) h later =
      let (items, read, collected) = later item h in
      (
        item ∷ items,
        found item h read,
        rw (h, collect, collected, push-certificates item items) refl,
      )

  collect_lem :
      Consumes read_one
      → (rounds : ℕ) (input : Bytes) → length input < rounds
      → Collected rounds input
  collect_lem consumes zero input enough = absurd (omega arith)
  collect_lem consumes (suc rounds) input enough =
      collect_step rounds input (read_one input).0 refl (λ item h.
        let shorter = consumes input item h in
        collect_lem consumes rounds (read_one input).1 (omega arith))

  -- Where the reader takes something for every item, the loop ends, and returns the certificates
  -- among the items that the reader gives up to its first error or its end, in order.
  pub cloudflare_ca_certs-Items :
      (pem : Bytes)
      → Consumes read_one
      → (items : List Item) × Items pem items
        × (cloudflare_ca_certs pem ≡ some (certificates items))
  unfolding cloudflare_ca_certs
  cloudflare_ca_certs-Items pem consumes = collect_lem consumes (suc (length pem)) pem (omega arith)

-- What `make_tls_config` uses: `RootCertStore::add`, the certificates of the platform, and the trust
-- anchors of the crate webpki_roots.
pub record RootLib (Store : Type 0) : Type 0 where
  pub empty : Store
  pub add : Bytes → Store → Option Store
  pub load_native_certs : Result Str (List Bytes)
  pub add_trust_anchors : Store → Store

module _ {Store : Type 0} (lib : RootLib Store) where
  -- A certificate that is refused leaves the store as it is.
  abbrev pub add_or_skip : Option Store → Store → Store
  add_or_skip none store = store
  add_or_skip (some added) store = added

  abbrev pub add_all : List Bytes → Store → Store
  add_all [] store = store
  add_all (cert ∷ certs) store = add_all certs (add_or_skip (lib.add cert store) store)

  abbrev pub add_native : Result Str (List Bytes) → Store → Store
  add_native (ok certs) store = add_all certs store
  add_native (err e) store = store

  -- The root store of the configuration, from the embedded certificates.
  unfoldable pub make_tls_config : List Bytes → Store
  make_tls_config embedded =
      lib.add_trust_anchors (add_native lib.load_native_certs (add_all embedded lib.empty))
