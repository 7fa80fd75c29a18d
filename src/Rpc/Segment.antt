-- ===== src/Rpc/Segment.antt =====
-- How the reader of a message, a parameter from the crate capnp, follows the words of one segment
-- that src/capnp_rpc.rs writes by hand.
use argo_rust.Base.{ℕ, ◌+◌, ◌<◌, List, some, ok, ◌≡◌, arith, ltb, true}
use argo_rust.CapnpRpc.Bytes.{Bytes}
use argo_rust.CapnpRpc.Wire.{struct_at, data_at, text_at, texts_at, u8_at}
use argo_rust.Schema.{Layout, u8}
use argo_rust.Schema.Memory.{memory, record_at}
use argo_rust.Rpc.{texts_of}
use argo_rust.Rpc.Pointers.{
  wire_struct-struct_at, wire_text-text_at, wire_data-data_at, wire_list-texts_at, first_byte-u8_at,
}

module _ (l : Layout) (reader : List ℕ → ℕ → ℕ → ℕ → Layout.Struct l) where
  open l use {Pointer, get_pointer_field, get_data_field, get_struct, get_text, get_data, get_list}

  -- The encoding of a message in one segment, where the message stays below the limits of its
  -- reader: `reader` gives the struct at a word with `d` words of data and `c` pointers behind them,
  -- and a pointer that leads to a struct, a text, data or a list of texts inside the segment reads
  -- as that.
  pub record SegmentLaws : Type 0 where
    pub first_byte :
        (ws : List ℕ) (t c n : ℕ)
        → u8_at ws t 0 ≡ some n
        → get_data_field u8 (reader ws t 1 c) 0 ≡ n
    pub struct :
        (ws : List ℕ) (t d c j d' c' u : ℕ)
        → j < c
        → 0 < d' + c'
        → struct_at ws (t + d + j) d' c' ≡ some u
        → get_struct (get_pointer_field (reader ws t d c) j) ≡ ok (reader ws u d' c')
    pub data_bytes :
        (ws : List ℕ) (t d c j : ℕ) (b : Bytes)
        → j < c
        → data_at ws (t + d + j) ≡ some b
        → get_data (get_pointer_field (reader ws t d c) j) ≡ ok b
    pub text :
        (ws : List ℕ) (t d c j : ℕ) (b : Bytes)
        → j < c
        → text_at ws (t + d + j) ≡ some b
        → get_text (get_pointer_field (reader ws t d c) j) ≡ ok b
    pub text_list :
        (ws : List ℕ) (t d c j : ℕ) (ts : List Bytes)
        → j < c
        → texts_at ws (t + d + j) ≡ some ts
        → (ps : List Pointer) × (get_list (get_pointer_field (reader ws t d c) j) ≡ ok ps)
          × (texts_of l ps ≡ ok ts)

inside : (j c : ℕ) → j < c → ltb j c ≡ true
inside j c less = ground arith

pub memory-SegmentLaws : SegmentLaws memory record_at
memory-SegmentLaws = record {
  first_byte = λ ws t c n e. first_byte-u8_at ws t c n e;
  struct = λ ws t d c j d' c' u less sized e.
      rw (inside j c less) (wire_struct-struct_at ws (t + d + j) d' c' u sized e);
  data_bytes = λ ws t d c j b less e. rw (inside j c less) (wire_data-data_at ws (t + d + j) b e);
  text = λ ws t d c j b less e. rw (inside j c less) (wire_text-text_at ws (t + d + j) b e);
  text_list = λ ws t d c j ts less e. rw (inside j c less) (wire_list-texts_at ws (t + d + j) ts e);
}
