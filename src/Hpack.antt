-- ===== src/Hpack.antt =====
-- go/internal/hpack/hpack.go: the integers, the dynamic table and the decoder of HPACK, and the size
-- announcements of its encoder. A string is its bytes. The static table, the Huffman decoder and the
-- caller's emit are arguments.
mod Table
mod Blocks
mod Rounds
mod Resizes
mod Announce
mod Integers
mod Tests
use event_work_balance.Base.{
  ℕ, zero, suc, ◌+◌, ◌-◌, ◌*◌, ◌/◌, ◌%◌, ◌^◌, List, [], ◌∷◌, ◌++◌, Bool, true, false, not, ◌&&◌,
  ◌||◌, Option, none, some, ◌==◌, ltb, leb, if◌then◌else◌, length, get_elem?, take, drop,
}

pub record HeaderField : Type 0 where
  pub name : List ℕ
  pub value : List ℕ

abbrev pub size : HeaderField → ℕ
size f = length f.name + length f.value + 32

abbrev pub default_table_size : ℕ
default_table_size = 4096

pub data Error : Type 0 where
  invalid_index : Error
  integer_overflow : Error
  truncated : Error
  invalid_huffman : Error
  string_too_long : Error
  invalid_size_update : Error
  refused : Error

pub data Result {ℓ} (A : Type ℓ) : Type ℓ where
  ok : A → Result A
  err : Error → Result A

-- `total` is the field size of the source; the newest entry is the last.
pub record DynamicTable : Type 0 where
  pub entries : List HeaderField
  pub total : ℕ
  pub max_size : ℕ

pub get : DynamicTable → ℕ → Option HeaderField
get t index =
    if ltb index 1
    then none
    else if ltb (length t.entries) index
    then none
    else get_elem? t.entries (length t.entries - index)

-- The loop of evict: the entries that stay, and their size.
unfoldable pub evict_from : ℕ → ℕ → List HeaderField → List HeaderField × ℕ
evict_from max_size total [] = ([], total)
evict_from max_size total (f ∷ fs) =
    let rest = evict_from max_size (total - size f) fs in
    if ltb max_size total then rest else (f ∷ fs, total)

unfoldable pub evict : DynamicTable → DynamicTable
unfolding evict_from
evict t = let r = evict_from t.max_size t.total t.entries in record t { entries = r.0; total = r.1 }

unfoldable pub add : DynamicTable → HeaderField → DynamicTable
unfolding evict
add t f = evict (record t { entries = t.entries ++ (f ∷ []); total = t.total + size f })

unfoldable pub set_max_size : DynamicTable → ℕ → DynamicTable
unfolding evict
set_max_size t n = evict (record t { max_size = n })

-- What a read past the integer's first byte answers: `shift` is below 56, so that nothing wraps.
unfoldable pub read_rest : ℕ → ℕ → List ℕ → Result (ℕ × List ℕ)
read_rest shift value [] = err truncated
read_rest shift value (b ∷ bs) =
    let value' = value + b % 128 * 2 ^ shift in
    let rest = read_rest (shift + 7) value' bs in
    if b / 128 % 2 == 0
    then ok (value', bs)
    else if leb 56 (shift + 7)
    then err integer_overflow
    else rest

unfoldable pub read_int : List ℕ → ℕ → Result (ℕ × List ℕ)
unfolding read_rest
read_int [] n = err truncated
read_int (b ∷ bs) n =
    let mask = 2 ^ n - 1 in
    if ltb (b % 2 ^ n) mask then ok (b % 2 ^ n, bs) else read_rest 0 (b % 2 ^ n) bs

-- The bytes after the first; a uint64 has ten at most, which is the fuel.
unfoldable pub append_rest : ℕ → ℕ → List ℕ
append_rest zero value = value ∷ []
append_rest (suc fuel) value =
    let rest = append_rest fuel (value / 128) in
    if leb 128 value then (value % 128 + 128) ∷ rest else value ∷ []

-- `first` has no bit below the n-th, so that its union with the prefix is their sum.
unfoldable pub append_int : List ℕ → ℕ → ℕ → ℕ → List ℕ
unfolding append_rest
append_int dst first n value =
    let mask = 2 ^ n - 1 in
    if ltb value mask
    then dst ++ ((first + value) ∷ [])
    else dst ++ ((first + mask) ∷ append_rest 10 (value - mask))

pub record Decoder : Type 0 where
  pub table : DynamicTable
  pub allowed_max_size : ℕ
  pub max_string_length : ℕ

unfoldable pub new_decoder : ℕ → Decoder
new_decoder max_table_size = record {
  table = record { entries = []; total = 0; max_size = max_table_size };
  allowed_max_size = max_table_size;
  max_string_length = 0;
}

pub record Encoder : Type 0 where
  pub table : DynamicTable
  pub pending_size : Bool
  pub min_pending : ℕ

unfoldable pub new_encoder : Encoder
new_encoder = record {
  table = record { entries = []; total = 0; max_size = default_table_size };
  pending_size = false;
  min_pending = 0;
}

unfoldable pub set_max_table_size : Encoder → ℕ → Encoder
unfolding set_max_size
set_max_table_size e n =
    let n' = if ltb default_table_size n then default_table_size else n in
    if n' == e.table.max_size then e else record e {
      min_pending = if not e.pending_size || ltb n' e.min_pending then n' else e.min_pending;
      pending_size = true;
      table = set_max_size e.table n';
    }

unfoldable pub begin_block : Encoder → List ℕ → Encoder × List ℕ
unfolding append_int
begin_block e dst = if not e.pending_size then (e, dst) else (
  record e { pending_size = false },
  append_int (if ltb e.min_pending e.table.max_size then append_int dst 32 5 e.min_pending else dst)
      32 5 e.table.max_size,
)

-- `bind` of Go's early returns.
abbrev pub try {ℓ₁ ℓ₂} : {A : Type ℓ₁} {B : Type ℓ₂} → Result A → (A → Result B) → Result B
try (err e) k = err e
try (ok a) k = k a

module _ (static_table : List HeaderField) (huffman_decode : List ℕ → ℕ → Result (List ℕ)) where
  unfoldable pub field : DynamicTable → ℕ → Option HeaderField
  unfolding get
  field t index =
      if index == 0
      then none
      else if leb index (length static_table)
      then get_elem? static_table (index - 1)
      else if ltb (length t.entries) (index - length static_table)
      then none
      else get t (index - length static_table)

  unfoldable pub read_string : Decoder → List ℕ → Result (List ℕ × List ℕ)
  unfolding read_int
  read_string d [] = err truncated
  read_string d (b ∷ bs) = try (read_int (b ∷ bs) 7) λ (len, rest).
      if ltb (length rest) len
      then err truncated
      else if b / 128 % 2 == 0
      then (if ltb 0 d.max_string_length && ltb d.max_string_length len
          then err string_too_long
          else ok (take len rest, drop len rest))
      else try (huffman_decode (take len rest) d.max_string_length) λ s. ok (s, drop len rest)

  unfoldable pub read_name : Decoder → ℕ → List ℕ → Result (List ℕ × List ℕ)
  unfolding read_string field
  read_name d index rest =
      if ltb 0 index
      then elim (field d.table index) [ none ↦ err invalid_index | some f ↦ ok (f.name, rest) ]
      else read_string d rest

  unfoldable pub read_literal : Decoder → List ℕ → ℕ → Result (HeaderField × List ℕ)
  unfolding read_int read_name read_string
  read_literal d block n = try (read_int block n) λ (index, rest).
      try (read_name d index rest) λ (name, rest').
        try (read_string d rest')
          λ (value, rest''). ok (record { name = name; value = value }, rest'')
