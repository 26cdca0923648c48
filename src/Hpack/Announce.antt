-- ===== src/Hpack/Announce.antt =====
-- What Encoder.Begin of go/internal/hpack/hpack.go announces, and what Decode makes of it.
use event_work_balance.Base.{
  ℕ, zero, suc, ◌+◌, ◌-◌, ◌/◌, ◌%◌, ◌≤◌, ◌≡◌, refl, sym, ap, ◌∙◌, List, [], ◌∷◌, ◌++◌, Bool, true,
  false, ltb, arith, Bool-cases, inl, inr, length, length-append, Option, none, some, append-nil,
}
use event_work_balance.Hpack.{
  HeaderField, DynamicTable, Encoder, Decoder, Result, ok, default_table_size, set_max_size,
  append_int, append_rest, read_int, begin_block,
}
use event_work_balance.Hpack.Table.{IsFit}
use event_work_balance.Hpack.Integers.{read_int-append_int}
use event_work_balance.Hpack.Blocks.{
  Decoded, finished, goes_on, turn, after_turn, size_update, decode_from, decode,
}
use event_work_balance.Hpack.Resizes.{
  IsTold, set_sizes, set_sizes-IsTold, last_size, set_max_size_twice,
}

-- The bytes that announce a size: the first tells what they are.
abbrev announced : ℕ → List ℕ
announced v = append_int [] 32 5 v

announced_head :
    (v : ℕ)
    → (b : ℕ) × (bs : List ℕ) × (announced v ≡ b ∷ bs)
      × (b / 32 % 8 ≡ 1)
      × (b / 64 % 4 ≡ 0)
      × (b / 128 % 2 ≡ 0)
unfolding append_int
announced_head v = elim (Bool-cases (ltb v 31)) [
  | inl short ↦ (32 + v, [], rw short refl, ground arith, ground arith, ground arith)
  | inr long ↦ (63, append_rest 10 (v - 31), rw long refl, refl, refl, refl)
]

-- A block that ends without an error and without a field.
abbrev pub only_resized : Decoder → Option Decoded
only_resized d = some (record { decoder = d; emitted = []; error = none })

append_int-append : (dst : List ℕ) (v : ℕ) → append_int dst 32 5 v ≡ dst ++ announced v
unfolding append_int
append_int-append dst v = elim (Bool-cases (ltb v 31)) [
  | inl short ↦ rw short refl
  | inr long ↦ rw long refl
]

begin_block_encoder :
    (e : Encoder)
    → let e' = (begin_block e []).0 in (e'.table ≡ e.table) × (e'.pending_size ≡ false)
unfolding begin_block
begin_block_encoder e = ground arith

begin_block_idle : (e : Encoder) → e.pending_size ≡ false → (begin_block e []).1 ≡ []
unfolding begin_block
begin_block_idle e idle = rw idle refl

begin_block_both :
    (e : Encoder)
    → e.pending_size ≡ true
    → ltb e.min_pending e.table.max_size ≡ true
    → (begin_block e []).1 ≡ announced e.min_pending ++ announced e.table.max_size
unfolding begin_block
begin_block_both e busy both =
    rw (busy, both) (append_int-append (announced e.min_pending) e.table.max_size)

begin_block_one :
    (e : Encoder)
    → e.pending_size ≡ true
    → ltb e.min_pending e.table.max_size ≡ false
    → (begin_block e []).1 ≡ announced e.table.max_size
unfolding begin_block
begin_block_one e busy one = rw (busy, one) refl

module _ (static_table : List HeaderField) (huffman_decode : List ℕ → ℕ → Result (List ℕ))
    (accepts : List HeaderField → Bool) where
  -- Decode reads an announced size at the start of a block, and resizes its table to it.
  size_update-announced :
      (d : Decoder) (v b : ℕ) (bs rest : List ℕ)
      → v ≤ default_table_size
      → default_table_size ≤ d.allowed_max_size
      → announced v ≡ b ∷ bs
      → size_update static_table huffman_decode d true (b ∷ (bs ++ rest))
        ≡ ok (record {
          decoder = record d { table = set_max_size d.table v };
          emits = none;
          rest = rest;
        })
  unfolding size_update
  size_update-announced d v b bs rest c a e =
      let back : read_int (b ∷ (bs ++ rest)) 5 ≡ ok (v, rest) =
        ap (λ xs. read_int (xs ++ rest) 5) (sym e)
        ∙ read_int-append_int 32 5 v rest refl (omega (arith, c)) in
      let allowed : ltb d.allowed_max_size v ≡ false = ground arith in rw (back, allowed) refl

  turn-announced :
      (d : Decoder) (b : ℕ) (bs : List ℕ)
      → b / 32 % 8 ≡ 1
      → b / 64 % 4 ≡ 0
      → b / 128 % 2 ≡ 0
      → turn static_table huffman_decode d true b bs
        ≡ size_update static_table huffman_decode d true (b ∷ bs)
  unfolding turn
  turn-announced d b bs p q r = rw (p, q, r) refl

  decode_from-goes_on :
      (fuel : ℕ) (d d' : Decoder) (b : ℕ) (bs rest : List ℕ)
      → turn static_table huffman_decode d true b bs
        ≡ ok (record { decoder = d'; emits = none; rest = rest })
      → decode_from static_table huffman_decode accepts (suc fuel) d true [] (b ∷ bs)
        ≡ decode_from static_table huffman_decode accepts fuel d' true [] rest
  unfolding decode_from after_turn
  decode_from-goes_on fuel d d' b bs rest e =
      ap
        (λ r. elim (after_turn static_table huffman_decode accepts true d [] r) [
          | finished r ↦ some r
          | goes_on d' start' out' rest ↦
              decode_from static_table huffman_decode accepts fuel d' start' out' rest
        ])
        e

  decode_from-announced :
      (fuel : ℕ) (d : Decoder) (v : ℕ) (rest : List ℕ)
      → v ≤ default_table_size
      → default_table_size ≤ d.allowed_max_size
      → decode_from static_table huffman_decode accepts (suc fuel) d true [] (announced v ++ rest)
        ≡ decode_from static_table huffman_decode accepts fuel
            (record d { table = set_max_size d.table v })
            true
            []
            rest
  decode_from-announced fuel d v rest c a =
      let (b, bs, e, p, q, r) = announced_head v in
      ap (λ xs. decode_from static_table huffman_decode accepts (suc fuel) d true [] (xs ++ rest)) e
      ∙ decode_from-goes_on fuel d _ b (bs ++ rest) rest
          (turn-announced d b (bs ++ rest) p q r ∙ size_update-announced d v b bs rest c a e)

  decode_from_end :
      (fuel : ℕ) (d : Decoder)
      → decode_from static_table huffman_decode accepts fuel d true [] [] ≡ only_resized d
  unfolding decode_from
  decode_from_end zero d = refl
  decode_from_end (suc fuel) d = refl

  decode_none : (d : Decoder) → decode static_table huffman_decode accepts d [] ≡ only_resized d
  unfolding decode
  decode_none d = decode_from_end 0 d

  decode_one :
      (d : Decoder) (v : ℕ)
      → v ≤ default_table_size
      → default_table_size ≤ d.allowed_max_size
      → decode static_table huffman_decode accepts d (announced v)
        ≡ some (record {
          decoder = record d { table = set_max_size d.table v };
          emitted = [];
          error = none;
        })
  unfolding decode
  decode_one d v c a =
      let (b, bs, e, _, _, _) = announced_head v in
      let d' : Decoder = record d { table = set_max_size d.table v } in
      ap (λ k. decode_from static_table huffman_decode accepts k d true [] (announced v))
        (ap length e)
      ∙ ap (λ xs. decode_from static_table huffman_decode accepts (suc (length bs)) d true [] xs)
          (sym (append-nil (announced v)))
      ∙ decode_from-announced (length bs) d v [] c a
      ∙ decode_from_end (length bs) d'

  decode_two :
      (d : Decoder) (v w : ℕ)
      → v ≤ default_table_size
      → w ≤ default_table_size
      → default_table_size ≤ d.allowed_max_size
      → decode static_table huffman_decode accepts d (announced v ++ announced w)
        ≡ some (record {
          decoder = record d { table = set_max_size (set_max_size d.table v) w };
          emitted = [];
          error = none;
        })
  unfolding decode
  decode_two d v w c c' a =
      let (b, bs, e, _, _, _) = announced_head v in
      let (b', bs', e', _, _, _) = announced_head w in
      let n = length bs + length bs' in
      let fuel : length (announced v ++ announced w) ≡ suc (suc n) =
        omega (arith, length-append (announced v) (announced w), ap length e, ap length e') in
      let d' : Decoder = record d { table = set_max_size d.table v } in
      ap
        (λ k.
          decode_from static_table huffman_decode accepts k d true [] (announced v ++ announced w))
        fuel
      ∙ decode_from-announced (suc n) d v (announced w) c a
      ∙ ap (λ xs. decode_from static_table huffman_decode accepts (suc n) d' true [] xs)
          (sym (append-nil (announced w)))
      ∙ decode_from-announced n d' w [] c' a
      ∙ decode_from_end n (record d' { table = set_max_size d'.table w })

  decoded :
      (d : Decoder) (t u : DynamicTable)
      → t ≡ u
      → only_resized (record d { table = t }) ≡ only_resized (record d { table = u })
  decoded d t u e = ap (λ (t : DynamicTable). only_resized (record d { table = t })) e

  begin_block-decode :
      (d : Decoder) (e : Encoder)
      → IsTold d.table e
      → default_table_size ≤ d.allowed_max_size
      → decode static_table huffman_decode accepts d (begin_block e []).1
        ≡ only_resized (record d { table = e.table })
  begin_block-decode d e w a = elim w.told [
    | inl (idle, same) ↦
        rw (begin_block_idle e idle) (decode_none d ∙ decoded d d.table e.table (sym same))
    | inr (busy, low, same) ↦
        let capped : e.min_pending ≤ default_table_size = omega (arith, low, w.within) in
        elim (Bool-cases (ltb e.min_pending e.table.max_size)) [
          | inl both ↦ rw (begin_block_both e busy both) (
              decode_two d e.min_pending e.table.max_size capped w.within a
              ∙ decoded d _ e.table (sym same))
          | inr one ↦
              let equal : e.min_pending ≡ e.table.max_size = ground arith in
              rw (begin_block_one e busy one) (
                decode_one d e.table.max_size w.within a
                ∙ decoded d _ e.table (
                    sym (
                      same
                      ∙ ap (λ k. set_max_size (set_max_size d.table k) e.table.max_size) equal
                      ∙ set_max_size_twice d.table e.table.max_size e.table.max_size
                          (omega arith))))
        ]
  ]

  -- Between two blocks, after any calls of SetMaxTableSize, on an encoder with nothing to announce
  -- whose table is that of a decoder that allows the default size, a block that Begin starts, and
  -- that ends there, is decoded without an error and without a field, and leaves the decoder with the
  -- encoder's table; that has the size that was asked for last, or the default if that is less; and
  -- the encoder has nothing left to announce.
  pub sizes_reach_decoder :
      (d : Decoder) (e : Encoder) (ns : List ℕ)
      → IsFit d.table
      → default_table_size ≤ d.allowed_max_size
      → e.pending_size ≡ false
      → e.table ≡ d.table
      → e.table.max_size ≤ default_table_size
      → let (e', block) = begin_block (set_sizes e ns) [] in
        (decode static_table huffman_decode accepts d block
          ≡ only_resized (record d { table = e'.table }))
        × (e'.table.max_size ≡ last_size e.table.max_size ns)
        × (e'.pending_size ≡ false)
  sizes_reach_decoder d e ns v a idle same c =
      let (told, last) =
        set_sizes-IsTold d.table e ns v (record { within = c; told = inl (idle, same) }) in
      let (kept, quiet) = begin_block_encoder (set_sizes e ns) in
      (
        begin_block-decode d (set_sizes e ns) told a ∙ decoded d _ _ (sym kept),
        ap (λ (t : DynamicTable). t.max_size) kept ∙ last,
        quiet,
      )
