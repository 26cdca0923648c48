-- ===== src/Hpack/Blocks.antt =====
-- Decoder.Decode of go/internal/hpack/hpack.go: a block is a run of representations.
use event_work_balance.Base.{
  ℕ, zero, suc, ◌/◌, ◌%◌, List, [], ◌∷◌, ◌++◌, Bool, true, false, not, Option, none, some, ◌==◌,
  ltb, if◌then◌else◌, length,
}
use event_work_balance.Hpack.{
  HeaderField, Decoder, Result, ok, err, Error, invalid_index, invalid_size_update, refused, add,
  set_max_size, read_int, read_literal, field, try,
}

-- How a block ends: the decoder, the fields emitted, and the error if there is one.
pub record Decoded : Type 0 where
  pub decoder : Decoder
  pub emitted : List HeaderField
  pub error : Option Error

-- What one representation makes of the decoder, the field that it emits, and the bytes after it.
pub record Turn : Type 0 where
  pub decoder : Decoder
  pub emits : Option HeaderField
  pub rest : List ℕ

-- Whether the loop ends, or what it goes on with.
pub data Round : Type 0 where
  finished : Decoded → Round
  goes_on : Decoder → Bool → List HeaderField → List ℕ → Round

module _ (static_table : List HeaderField) (huffman_decode : List ℕ → ℕ → Result (List ℕ)) where
  unfoldable pub indexed : Decoder → List ℕ → Result Turn
  unfolding read_int field
  indexed d block = try (read_int block 7) λ (index, rest).
      elim (field static_table huffman_decode d.table index) [
        | none ↦ err invalid_index
        | some f ↦ ok (record { decoder = d; emits = some f; rest = rest })
      ]

  unfoldable pub with_indexing : Decoder → List ℕ → Result Turn
  unfolding read_literal add
  with_indexing d block = try (read_literal static_table huffman_decode d block 6) λ (f, rest).
      ok (record { decoder = record d { table = add d.table f }; emits = some f; rest = rest })

  unfoldable pub size_update : Decoder → Bool → List ℕ → Result Turn
  unfolding read_int set_max_size
  size_update d start block =
      if not start
      then err invalid_size_update
      else try (read_int block 5) λ (size, rest).
        if ltb d.allowed_max_size size
        then err invalid_size_update
        else ok (record {
          decoder = record d { table = set_max_size d.table size };
          emits = none;
          rest = rest;
        })

  unfoldable pub without_indexing : Decoder → List ℕ → Result Turn
  unfolding read_literal
  without_indexing d block =
      try (read_literal static_table huffman_decode d block 4)
        λ (f, rest). ok (record { decoder = d; emits = some f; rest = rest })

  -- One round of the loop, on a block that is not empty.
  unfoldable pub turn : Decoder → Bool → ℕ → List ℕ → Result Turn
  unfolding indexed with_indexing size_update without_indexing
  turn d start b bs =
      if b / 128 % 2 == 1
      then indexed d (b ∷ bs)
      else if b / 64 % 4 == 1
      then with_indexing d (b ∷ bs)
      else if b / 32 % 8 == 1
      then size_update d start (b ∷ bs)
      else without_indexing d (b ∷ bs)

  -- `accepts` is the caller's emit, which sees each field after those before it.
  module _ (accepts : List HeaderField → Bool) where
    unfoldable pub after_turn : Bool → Decoder → List HeaderField → Result Turn → Round
    after_turn start d out (err e) =
        finished (record { decoder = d; emitted = out; error = some e })
    after_turn start d out (ok t) = elim t.emits [
      | none ↦ goes_on t.decoder start out t.rest
      | some f ↦
          if accepts (out ++ (f ∷ []))
          then goes_on t.decoder false (out ++ (f ∷ [])) t.rest
          else finished
              (record { decoder = t.decoder; emitted = out ++ (f ∷ []); error = some refused })
    ]

    -- A round takes a byte at least, so that a block has fuel enough in its length; `none` is a run
    -- that had not.
    unfoldable pub decode_from : ℕ → Decoder → Bool → List HeaderField → List ℕ → Option Decoded
    unfolding turn after_turn
    decode_from fuel d start out [] = some (record { decoder = d; emitted = out; error = none })
    decode_from zero d start out (b ∷ bs) = none
    decode_from (suc fuel) d start out (b ∷ bs) =
        elim (after_turn start d out (turn d start b bs)) [
          | finished r ↦ some r
          | goes_on d' start' out' rest ↦ decode_from fuel d' start' out' rest
        ]

    unfoldable pub decode : Decoder → List ℕ → Option Decoded
    unfolding decode_from
    decode d block = decode_from (length block) d true [] block
