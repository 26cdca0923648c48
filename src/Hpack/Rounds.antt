-- ===== src/Hpack/Rounds.antt =====
-- Decoder.Decode of go/internal/hpack/hpack.go returns on every block, and keeps its table.
use event_work_balance.Base.{
  ℕ, zero, suc, ◌+◌, ◌-◌, ◌*◌, ◌/◌, ◌%◌, ◌^◌, ◌≤◌, ◌≡◌, refl, ◌∙◌, List, [], ◌∷◌, ◌++◌, Bool, true,
  false, Option, none, some, ◌==◌, ltb, leb, if◌then◌else◌, length, arith, Bool-cases, inl, inr,
  length-drop, ◌&&◌, not, take, drop,
}
use event_work_balance.Hpack.{
  HeaderField, Decoder, new_decoder, refused, integer_overflow, invalid_index, invalid_size_update,
  truncated, string_too_long, Result, ok, err, read_rest, read_int, read_string, read_name,
  read_literal, try, field, add, set_max_size,
}
use event_work_balance.Hpack.Table.{IsFit, add-IsFit, set_max_size-IsFit}
use event_work_balance.Hpack.Blocks.{
  Decoded, Turn, Round, finished, goes_on, indexed, with_indexing, size_update, without_indexing,
  turn, after_turn, decode_from, decode,
}

-- What holds of an answer that is not an error.
abbrev pub Each {ℓ₁ ℓ₂} : {A : Type ℓ₁} → (A → Type ℓ₂) → Result A → Type ℓ₂
Each P (err e) = Unit
Each P (ok a) = P a

Each-try {ℓ₁ ℓ₂ ℓ₃ ℓ₄} :
    {A : Type ℓ₁} {B : Type ℓ₂} (P : A → Type ℓ₃) (Q : B → Type ℓ₄) (r : Result A)
    (k : A → Result B)
    → Each P r
    → ((a : A) → P a → Each Q (k a))
    → Each Q (try r k)
Each-try P Q (err e) k p q = tt
Each-try P Q (ok a) k p q = q a p

Each-if {ℓ₁ ℓ₂} :
    {A : Type ℓ₁} (P : A → Type ℓ₂) (b : Bool) (x y : Result A)
    → Each P x
    → Each P y
    → Each P (if b then x else y)
Each-if P true x y p q = p
Each-if P false x y p q = q

Each-weaken {ℓ₁ ℓ₂ ℓ₃} :
    {A : Type ℓ₁} (P : A → Type ℓ₂) (Q : A → Type ℓ₃) (r : Result A)
    → ((a : A) → P a → Q a)
    → Each P r
    → Each Q r
Each-weaken P Q (err e) f p = tt
Each-weaken P Q (ok a) f p = f a p

-- The bytes that a reader leaves.
abbrev Leaves {ℓ} : {A : Type ℓ} → ℕ → Result (A × List ℕ) → Type 0
Leaves n = Each (λ p. length p.1 ≤ n)

read_rest-Leaves : (shift value : ℕ) (bs : List ℕ) → Leaves (length bs) (read_rest shift value bs)
unfolding read_rest
read_rest-Leaves shift value [] = tt
read_rest-Leaves shift value (b ∷ bs) =
    let value' = value + b % 128 * 2 ^ shift in
    let rest = read_rest-Leaves (shift + 7) value' bs in
    Each-if _ (b / 128 % 2 == 0) (ok (value', bs)) _ (omega arith) (
      Each-if _ (leb 56 (shift + 7)) (err integer_overflow) _ tt
        (Each-weaken _ _ (read_rest (shift + 7) value' bs) (λ a h. omega (arith, h)) rest))

-- An integer takes a byte at least.
read_int-Leaves : (b : ℕ) (bs : List ℕ) (n : ℕ) → Leaves (length bs) (read_int (b ∷ bs) n)
unfolding read_int
read_int-Leaves b bs n =
    Each-if _ (ltb (b % 2 ^ n) (2 ^ n - 1)) (ok (b % 2 ^ n, bs)) _ (omega arith)
      (read_rest-Leaves 0 (b % 2 ^ n) bs)

anything {ℓ} : {A : Type ℓ} (r : Result A) → Each (λ _. Unit {0}) r
anything (err e) = tt
anything (ok a) = tt

found-Leaves :
    (rest : List ℕ) (o : Option HeaderField)
    → Leaves (length rest) (elim o as (λ _. Result (List ℕ × List ℕ)) [
      | none ↦ err invalid_index
      | some f ↦ ok (f.name, rest)
    ])
found-Leaves rest none = tt
found-Leaves rest (some f) = omega arith

-- The table is as large as it says, within its maximum, and that within what was advertised.
pub record IsSafe (d : Decoder) : Type 0 where
  pub fit : IsFit d.table
  pub allowed : d.table.max_size ≤ d.allowed_max_size

abbrev pub IsGood : ℕ → ℕ → Turn → Type 0
IsGood n allowed t = IsSafe t.decoder × (t.decoder.allowed_max_size ≡ allowed) × (length t.rest ≤ n)

-- What the decoder is after a run that started from one with `allowed` advertised.
abbrev pub Ends : ℕ → Option Decoded → Type 0
Ends allowed o =
    (r : Decoded) × (o ≡ some r) × IsSafe r.decoder × (r.decoder.allowed_max_size ≡ allowed)

emitted-IsGood :
    (d : Decoder) (bs : List ℕ)
    → IsSafe d
    → (rest : List ℕ) → length rest ≤ length bs
    → (o : Option HeaderField)
    → Each (IsGood (length bs) d.allowed_max_size) (elim o as (λ _. Result Turn) [
      | none ↦ err invalid_index
      | some f ↦ ok (record { decoder = d; emits = some f; rest = rest })
    ])
emitted-IsGood d bs v rest h none = tt
emitted-IsGood d bs v rest h (some f) = (v, refl, h)

module _ (static_table : List HeaderField) (huffman_decode : List ℕ → ℕ → Result (List ℕ)) where
  read_string-Leaves :
      (d : Decoder) (block : List ℕ)
      → Leaves (length block) (read_string static_table huffman_decode d block)
  unfolding read_string
  read_string-Leaves d [] = tt
  read_string-Leaves d (b ∷ bs) =
      Each-try (λ p. length p.1 ≤ length bs) _ (read_int (b ∷ bs) 7) _ (read_int-Leaves b bs 7)
        (λ (len, rest) h.
          let left : length (drop len rest) ≤ suc (length bs) =
            omega (arith, h, length-drop len rest) in
          Each-if _ (ltb (length rest) len) (err truncated) _ tt (
            Each-if _ (b / 128 % 2 == 0) _ _
              (Each-if _ (ltb 0 d.max_string_length && ltb d.max_string_length len)
                (err string_too_long) _ tt left)
              (Each-try (λ _. Unit {0}) _ (huffman_decode (take len rest) d.max_string_length) _
                (anything (huffman_decode (take len rest) d.max_string_length)) (λ s _. left))))

  read_name-Leaves :
      (d : Decoder) (index : ℕ) (rest : List ℕ)
      → Leaves (length rest) (read_name static_table huffman_decode d index rest)
  unfolding read_name
  read_name-Leaves d index rest =
      Each-if _ (ltb 0 index) _ _
        (found-Leaves rest (field static_table huffman_decode d.table index))
        (read_string-Leaves d rest)

  read_literal-Leaves :
      (d : Decoder) (b : ℕ) (bs : List ℕ) (n : ℕ)
      → Leaves (length bs) (read_literal static_table huffman_decode d (b ∷ bs) n)
  unfolding read_literal
  read_literal-Leaves d b bs n =
      Each-try (λ p. length p.1 ≤ length bs) _ (read_int (b ∷ bs) n) _ (read_int-Leaves b bs n)
        (λ (index, rest) h.
          Each-try (λ p. length p.1 ≤ length rest) _
            (read_name static_table huffman_decode d index rest) _ (read_name-Leaves d index rest)
            (λ (name, rest') h'.
              Each-try (λ p. length p.1 ≤ length rest') _
                (read_string static_table huffman_decode d rest') _ (read_string-Leaves d rest')
                (λ (value, rest'') h''. omega (arith, h, h', h''))))

  module _ (d : Decoder) (start : Bool) (b : ℕ) (bs : List ℕ) (v : IsSafe d) where
    abbrev Good : Result Turn → Type 0
    Good = Each (IsGood (length bs) d.allowed_max_size)

    indexed-Good : Good (indexed static_table huffman_decode d (b ∷ bs))
    unfolding indexed
    indexed-Good =
        Each-try (λ p. length p.1 ≤ length bs) _ (read_int (b ∷ bs) 7) _ (read_int-Leaves b bs 7)
          (λ (index, rest) h.
            emitted-IsGood d bs v rest h (field static_table huffman_decode d.table index))

    with_indexing-Good : Good (with_indexing static_table huffman_decode d (b ∷ bs))
    unfolding with_indexing add
    with_indexing-Good =
        Each-try (λ p. length p.1 ≤ length bs) _
          (read_literal static_table huffman_decode d (b ∷ bs) 6) _ (read_literal-Leaves d b bs 6)
          (λ (f, rest) h.
            (record { fit = add-IsFit d.table f v.fit; allowed = v.allowed }, refl, h))

    size_update-Good : Good (size_update static_table huffman_decode d start (b ∷ bs))
    unfolding size_update set_max_size
    size_update-Good = Each-if _ (not start) (err invalid_size_update) _ tt (
        Each-try (λ p. length p.1 ≤ length bs) _ (read_int (b ∷ bs) 5) _ (read_int-Leaves b bs 5)
          (λ (size, rest) h. elim (Bool-cases (ltb d.allowed_max_size size)) [
            | inl over ↦ rw over tt
            | inr within ↦ rw within (
              record { fit = set_max_size-IsFit d.table size v.fit; allowed = ground arith },
              refl,
              h,
            )
          ]))

    without_indexing-Good : Good (without_indexing static_table huffman_decode d (b ∷ bs))
    unfolding without_indexing
    without_indexing-Good =
        Each-try (λ p. length p.1 ≤ length bs) _
          (read_literal static_table huffman_decode d (b ∷ bs) 4) _ (read_literal-Leaves d b bs 4)
          (λ (f, rest) h. (v, refl, h))

    turn-Good : Good (turn static_table huffman_decode d start b bs)
    unfolding turn
    turn-Good = Each-if _ (b / 128 % 2 == 1) _ _ indexed-Good (
        Each-if _ (b / 64 % 4 == 1) _ _ with_indexing-Good
          (Each-if _ (b / 32 % 8 == 1) _ _ size_update-Good without_indexing-Good))

  module _ (accepts : List HeaderField → Bool) where
    -- A round ends, or goes on with a block that is no longer than `n`.
    abbrev Sound : ℕ → ℕ → Round → Type 0
    Sound n allowed (finished r) = IsSafe r.decoder × (r.decoder.allowed_max_size ≡ allowed)
    Sound n allowed (goes_on d start out rest) =
        IsSafe d × (d.allowed_max_size ≡ allowed) × (length rest ≤ n)

    Sound-weaken : (n m allowed : ℕ) (r : Round) → n ≤ m → Sound n allowed r → Sound m allowed r
    Sound-weaken n m allowed (finished r) h v = v
    Sound-weaken n m allowed (goes_on d start out rest) h (v, e, l) = (v, e, omega (arith, h, l))

    emits-Sound :
        (start : Bool) (d : Decoder) (out : List HeaderField) (n : ℕ) (t : Turn)
        (emits : Option HeaderField)
        → IsSafe t.decoder
        → t.decoder.allowed_max_size ≡ d.allowed_max_size
        → length t.rest ≤ n
        → Sound n d.allowed_max_size (elim emits as (λ _. Round) [
          | none ↦ goes_on t.decoder start out t.rest
          | some f ↦
              if accepts (out ++ (f ∷ []))
              then goes_on t.decoder false (out ++ (f ∷ [])) t.rest
              else finished
                  (record { decoder = t.decoder; emitted = out ++ (f ∷ []); error = some refused })
        ])
    emits-Sound start d out n t none safe same left = (safe, same, left)
    emits-Sound start d out n t (some f) safe same left =
        elim (Bool-cases (accepts (out ++ (f ∷ [])))) [
          | inl taken ↦ rw taken (safe, same, left)
          | inr turned_down ↦ rw turned_down (safe, same)
        ]

    after_turn-Sound :
        (start : Bool) (d : Decoder) (out : List HeaderField) (n : ℕ) (r : Result Turn)
        → IsSafe d
        → Each (IsGood n d.allowed_max_size) r
        → Sound n d.allowed_max_size (after_turn static_table huffman_decode accepts start d out r)
    unfolding after_turn
    after_turn-Sound start d out n (err e) v h = (v, refl)
    after_turn-Sound start d out n (ok t) v (safe, same, left) =
        emits-Sound start d out n t t.emits safe same left

    round-Ends :
        (fuel : ℕ) (allowed : ℕ) (r : Round)
        → Sound fuel allowed r
        → ((d : Decoder) (start : Bool) (out : List HeaderField) (rest : List ℕ)
            → IsSafe d
            → d.allowed_max_size ≡ allowed
            → length rest ≤ fuel
            → Ends allowed (decode_from static_table huffman_decode accepts fuel d start out rest))
        → Ends allowed (elim r as (λ _. Option Decoded) [
          | finished x ↦ some x
          | goes_on d start out rest ↦
              decode_from static_table huffman_decode accepts fuel d start out rest
        ])
    round-Ends fuel allowed (finished x) (v, e) later = (x, refl, v, e)
    round-Ends fuel allowed (goes_on d start out rest) (v, e, h) later =
        later d start out rest v e h

    decode_from-Ends :
        (fuel : ℕ) (d : Decoder) (start : Bool) (out : List HeaderField) (block : List ℕ)
        → IsSafe d
        → length block ≤ fuel
        → Ends d.allowed_max_size
            (decode_from static_table huffman_decode accepts fuel d start out block)
    unfolding decode_from
    decode_from-Ends fuel d start out [] v h =
        (record { decoder = d; emitted = out; error = none }, refl, v, refl)
    decode_from-Ends zero d start out (b ∷ bs) v h = absurd (omega arith)
    decode_from-Ends (suc fuel) d start out (b ∷ bs) v h =
        let t = turn static_table huffman_decode d start b bs in
        let good = turn-Good d start b bs v in
        round-Ends fuel d.allowed_max_size
          (after_turn static_table huffman_decode accepts start d out t)
          (Sound-weaken (length bs) fuel d.allowed_max_size
            (after_turn static_table huffman_decode accepts start d out t) (omega (arith, h))
            (after_turn-Sound start d out (length bs) t v good))
          (λ d' start' out' rest w e l.
            let (r, ended, safe, same) = decode_from-Ends fuel d' start' out' rest w l in
            (r, ended, safe, same ∙ e))

    -- Decode returns on every block, and from a table whose size is its entries' and is within its
    -- maximum, and that within what was advertised, leaves such a table, also after an error.
    pub decode_keeps_table :
        (d : Decoder) (block : List ℕ)
        → IsSafe d
        → Ends d.allowed_max_size (decode static_table huffman_decode accepts d block)
    unfolding decode
    decode_keeps_table d block v = decode_from-Ends (length block) d true [] block v (omega arith)

pub new_decoder-IsSafe : (n : ℕ) → IsSafe (new_decoder n)
unfolding new_decoder
new_decoder-IsSafe n = record {
  fit = record { counted = refl; bounded = omega arith };
  allowed = omega arith;
}
