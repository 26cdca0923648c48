-- ===== src/Hpack/Tests.antt =====
-- HPACK of go/internal/hpack on small blocks.
use event_work_balance.Base.{
  ℕ, ◌≡◌, ◌≤◌, refl, List, [], ◌∷◌, ◌++◌, true, arith, length, false, none, some,
}
use event_work_balance.Hpack.{
  HeaderField, DynamicTable, Result, ok, err, invalid_huffman, new_decoder, read_int, append_int,
  add, new_encoder, set_max_table_size, begin_block,
}
use event_work_balance.Hpack.Table.{IsFit, add_keeps_newest}
use event_work_balance.Hpack.Blocks.{decode}
use event_work_balance.Hpack.Resizes.{set_sizes}
use event_work_balance.Hpack.Announce.{sizes_reach_decoder}
use event_work_balance.Hpack.Integers.{read_int-append_int}
use event_work_balance.Hpack.Rounds.{Ends, new_decoder-IsSafe, decode_keeps_table}

read_int-append_int_example : read_int (append_int [] 32 5 1337 ++ (7 ∷ [])) 5 ≡ ok (1337, 7 ∷ [])
read_int-append_int_example = read_int-append_int 32 5 1337 (7 ∷ []) refl (omega arith)

-- RFC 7541's example of an integer.
append_int_1337 : append_int [] 32 5 1337 ≡ 63 ∷ 154 ∷ 10 ∷ []
unfolding append_int
append_int_1337 = refl

abbrev letter : ℕ → HeaderField
letter b = record { name = b ∷ []; value = b ∷ [] }

-- Room for two fields of 34.
abbrev two_fields : DynamicTable
two_fields = record { entries = letter 97 ∷ letter 98 ∷ []; total = 68; max_size = 70 }

two_fields-IsFit : IsFit two_fields
two_fields-IsFit = record { counted = refl; bounded = omega arith }

add_keeps_newest_example :
    IsFit (add two_fields (letter 99))
    × ((gone : List HeaderField) × (two_fields.entries ++ (letter 99 ∷ [])
          ≡ gone ++ (add two_fields (letter 99)).entries))
    × (2 ≤ length (add two_fields (letter 99)).entries)
add_keeps_newest_example =
    add_keeps_newest two_fields (letter 99) (letter 97 ∷ []) (letter 98 ∷ letter 99 ∷ [])
      two_fields-IsFit refl (omega arith)

abbrev no_huffman : List ℕ → ℕ → Result (List ℕ)
no_huffman bytes bound = err invalid_huffman

-- A literal that is indexed, and its index.
decode_keeps_table_example : Ends 4096 (
    decode
      (letter 120 ∷ [])
      no_huffman
      (λ _. true)
      (new_decoder 4096)
      (64 ∷ 1 ∷ 97 ∷ 1 ∷ 98 ∷ 130 ∷ []))
unfolding new_decoder
decode_keeps_table_example =
    decode_keeps_table (letter 120 ∷ []) no_huffman (λ _. true) (new_decoder 4096)
      (64 ∷ 1 ∷ 97 ∷ 1 ∷ 98 ∷ 130 ∷ []) (new_decoder-IsSafe 4096)

-- The table is made empty and then larger again, so that the next block announces both sizes.
announces_both : (begin_block (set_sizes new_encoder (0 ∷ 100 ∷ [])) []).1 ≡ 32 ∷ 63 ∷ 69 ∷ []
unfolding begin_block set_sizes set_max_table_size new_encoder
announces_both = refl

sizes_reach_decoder_example :
    let (e', block) = begin_block (set_sizes new_encoder (0 ∷ 100 ∷ [])) [] in
    (decode (letter 120 ∷ []) no_huffman (λ _. true) (new_decoder 4096) block
      ≡ some (record {
        decoder = record (new_decoder 4096) { table = e'.table };
        emitted = [];
        error = none;
      }))
    × (e'.table.max_size ≡ 100)
    × (e'.pending_size ≡ false)
unfolding new_encoder new_decoder
sizes_reach_decoder_example =
    sizes_reach_decoder (letter 120 ∷ []) no_huffman (λ _. true) (new_decoder 4096) new_encoder
      (0 ∷ 100 ∷ []) (record { counted = refl; bounded = omega arith }) (omega arith) refl refl
      (omega arith)
