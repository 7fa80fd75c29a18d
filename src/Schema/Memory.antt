-- ===== src/Schema/Memory.antt =====
-- A layout in which a struct holds its bits and its pointers. It is the concrete
-- layout at which theorems that take a layout are applied.
pub mod Laws
use argo_rust.Base.{
  Option, some, and_then, ok_or, get_or, get_elem?, ℕ, zero, suc, ◌+◌, ◌-◌, ◌*◌, ◌/◌, ◌%◌, ◌^◌, ◌≤◌,
  ◌<◌, Bool, true, false, List, [], ◌∷◌, Str, Result, ok, err, ◌>>=◌, ◌≡◌, ◌≢◌, ◌⊎◌, refl, ◌∙◌,
  arith, leb, ltb, ◌==◌, ◌&&◌, if◌then◌else◌, codes, ==_iff, inl, inr,
}
use native.Mathlib.Nat.{pow-suc, mul-suc}
use argo_rust.CapnpRpc.Bytes.{Bytes}
use argo_rust.CapnpRpc.Wire.{struct_at, list_at, data_at, text_at}
use argo_rust.Schema.{Layout, StructSize, Primitive, width}
use argo_rust.Schema.Writes.{Apart, LayoutLaws}

pub data Cell : Type 0 where
  empty : Cell
  -- A pointer in a segment, at a word, that is not read yet.
  wire_cell : List ℕ → ℕ → Cell
  struct_cell : StructSize → (ℕ → Bool) → (ℕ → Cell) → Cell
  text_cell : Bytes → Cell
  data_cell : Bytes → Cell
  last_cell : Cell
  list_cell : Cell → Cell → Cell

pub record Record : Type 0 where
  pub size : StructSize
  pub bits : ℕ → Bool
  pub pointers : ℕ → Cell

abbrev pub bit : Bool → ℕ
bit true = 1
bit false = 0

-- The number of the bits 0 to `w - 1`.
abbrev pub from_bits : ℕ → (ℕ → Bool) → ℕ
from_bits zero f = 0
from_bits (suc w) f = bit (f 0) + 2 * from_bits w (λ k. f (suc k))

abbrev pub nth_bit : ℕ → ℕ → Bool
nth_bit v zero = v % 2 == 1
nth_bit v (suc k) = nth_bit (v / 2) k

abbrev pub within : ℕ → ℕ → ℕ → Bool
within o w j = leb o j && ltb j (o + w)

abbrev pub put_bits : ℕ → ℕ → ℕ → (ℕ → Bool) → ℕ → Bool
put_bits o w v f j = if within o w j then nth_bit v (j - o) else f j

abbrev pub to_cells : List Cell → Cell
to_cells [] = last_cell
to_cells (p ∷ ps) = list_cell p (to_cells ps)

abbrev empty_record : Record
empty_record = record {
  size = record { data_words = 0; pointers = 0 };
  bits = λ j. false;
  pointers = λ j. empty;
}

-- The struct of a segment whose data section begins at word `t`.
abbrev pub record_at : List ℕ → ℕ → ℕ → ℕ → Record
record_at ws t data_words count = record {
  size = record { data_words = data_words; pointers = count };
  bits =
      λ k. if ltb k (64 * data_words) then nth_bit (get_or ws (t + k / 64) 0) (k % 64) else false;
  pointers = λ j. if ltb j count then wire_cell ws (t + data_words + j) else empty;
}

abbrev from_segment : {A : Type 0} → Option A → Result Str A
from_segment o = ok_or o (codes "malformed message")

-- What a pointer in a segment gives: the default for null, else what `read` finds.
abbrev at_pointer : {A : Type 0} → List ℕ → ℕ → A → (ℕ → Option A) → Result Str A
at_pointer ws i default read =
    from_segment (and_then (get_elem? ws i) (λ p. if p == 0 then some default else read p))

abbrev pub wire_cells : List ℕ → ℕ → ℕ → List Cell
wire_cells ws t zero = []
wire_cells ws t (suc count) = wire_cell ws t ∷ wire_cells ws (t + 1) count

abbrev pub wire_struct : List ℕ → ℕ → Result Str Record
wire_struct ws i = at_pointer ws i empty_record (λ p.
    and_then (struct_at ws i (p / 2 ^ 32 % 2 ^ 16) (p / 2 ^ 48))
      (λ t. some (record_at ws t (p / 2 ^ 32 % 2 ^ 16) (p / 2 ^ 48))))

abbrev pub wire_text : List ℕ → ℕ → Result Str Bytes
wire_text ws i = at_pointer ws i [] (λ p. text_at ws i)

abbrev pub wire_data : List ℕ → ℕ → Result Str Bytes
wire_data ws i = at_pointer ws i [] (λ p. data_at ws i)

abbrev pub wire_list : List ℕ → ℕ → Result Str (List Cell)
wire_list ws i =
    at_pointer ws i [] (λ p. and_then (list_at ws i 6) (λ (t, count). some (wire_cells ws t count)))

abbrev wrong : {A : Type 0} → Result Str A
wrong = err (codes "wrong kind of pointer")

abbrev pub cells : Cell → Result Str (List Cell)
cells empty = ok []
cells (wire_cell ws i) = wire_list ws i
cells (struct_cell z b ps) = wrong
cells (text_cell t) = wrong
cells (data_cell t) = wrong
cells last_cell = ok []
cells (list_cell p rest) = do ps ← cells rest; ok (p ∷ ps)

abbrev read_cell : Cell → Result Str Record
read_cell empty = ok empty_record
read_cell (wire_cell ws i) = wire_struct ws i
read_cell (struct_cell z b ps) = ok record { size = z; bits = b; pointers = ps }
read_cell (text_cell t) = wrong
read_cell (data_cell t) = wrong
read_cell last_cell = wrong
read_cell (list_cell p rest) = wrong

abbrev text_of : Cell → Result Str Bytes
text_of empty = ok []
text_of (wire_cell ws i) = wire_text ws i
text_of (struct_cell z b ps) = wrong
text_of (text_cell t) = ok t
text_of (data_cell t) = wrong
text_of last_cell = wrong
text_of (list_cell p rest) = wrong

abbrev data_of : Cell → Result Str Bytes
data_of empty = ok []
data_of (wire_cell ws i) = wire_data ws i
data_of (struct_cell z b ps) = wrong
data_of (text_cell t) = wrong
data_of (data_cell t) = ok t
data_of last_cell = wrong
data_of (list_cell p rest) = wrong

abbrev is_empty_cell : Cell → Bool
is_empty_cell empty = true
is_empty_cell (wire_cell ws i) = get_or ws i 0 == 0
is_empty_cell (struct_cell z b ps) = false
is_empty_cell (text_cell t) = false
is_empty_cell (data_cell t) = false
is_empty_cell last_cell = false
is_empty_cell (list_cell p rest) = false

abbrev pub memory : Layout
memory = record {
  Struct = Record;
  Pointer = Cell;
  init_struct = λ z. record { size = z; bits = λ j. false; pointers = λ j. empty };
  get_pointer_field = λ s i. Record.pointers s i;
  set_pointer_field = λ s i p. record {
    size = Record.size s;
    bits = Record.bits s;
    pointers = λ j. if i == j then p else Record.pointers s j;
  };
  get_data_field = λ t s i. from_bits (width t) (λ k. Record.bits s (width t * i + k));
  set_data_field = λ t s i v. record {
    size = Record.size s;
    bits = put_bits (width t * i) (width t) v (Record.bits s);
    pointers = Record.pointers s;
  };
  is_null = is_empty_cell;
  null = empty;
  to_struct = λ s. struct_cell (Record.size s) (Record.bits s) (Record.pointers s);
  to_text = text_cell;
  to_data = data_cell;
  to_list = to_cells;
  get_struct = read_cell;
  get_text = text_of;
  get_data = data_of;
  get_list = cells;
  set_struct = λ s. ok (struct_cell (Record.size s) (Record.bits s) (Record.pointers s));
  set_list = λ ps. ok (to_cells ps);
}
