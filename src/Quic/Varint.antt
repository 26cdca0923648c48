-- ===== src/Quic/Varint.antt =====
-- go/http3/internal/quic/varint.go. A byte is a number below 256.
use event_work_balance.Base.{
  sym, drop-append_ge, ℕ, suc, ◌+◌, ◌-◌, ◌*◌, ◌/◌, ◌%◌, ◌^◌, ◌≤◌, ◌<◌, ◌≡◌, refl, ap, ◌∙◌, List, [],
  ◌∷◌, ◌++◌, Bool, true, false, ltb, arith, if◌then◌else◌, length, take, drop, Bool-cases, inl, inr,
}

-- `byte(v>>shift)`, of which the first byte keeps six bits beside its length mark.
abbrev byte_at : ℕ → ℕ → ℕ
byte_at shift v = v / 2 ^ shift % 256

abbrev marked : ℕ → ℕ → ℕ → ℕ
marked mark shift v = byte_at shift v % 64 + mark

unfoldable pub append_varint : List ℕ → ℕ → List ℕ
append_varint b v =
    if ltb v (2 ^ 6)
    then b ++ (byte_at 0 v ∷ [])
    else if ltb v (2 ^ 14)
    then b ++ (marked 64 8 v ∷ byte_at 0 v ∷ [])
    else if ltb v (2 ^ 30)
    then b ++ (marked 128 24 v ∷ byte_at 16 v ∷ byte_at 8 v ∷ byte_at 0 v ∷ [])
    else b
      ++ (marked 192 56 v
          ∷ byte_at 48 v
          ∷ byte_at 40 v
          ∷ byte_at 32 v
          ∷ byte_at 24 v
          ∷ byte_at 16 v
          ∷ byte_at 8 v
          ∷ byte_at 0 v
          ∷ [])

unfoldable pub varint_len : ℕ → ℕ
varint_len v =
    if ltb v (2 ^ 6) then 1 else if ltb v (2 ^ 14) then 2 else if ltb v (2 ^ 30) then 4 else 8

-- The loop of ReadVarint: 62 bits at most, so that the shift loses none.
abbrev pub fold : ℕ → List ℕ → ℕ
fold v [] = v
fold v (b ∷ bs) = fold (v * 256 + b) bs

-- The value and its length, which is 0 for a `b` that is too short.
unfoldable pub read_varint : List ℕ → ℕ × ℕ
read_varint [] = (0, 0)
read_varint (b ∷ bs) =
    let n = 2 ^ (b / 64) in
    if ltb (length (b ∷ bs)) n then (0, 0) else (fold (b % 64) (take (n - 1) bs), n)

pub record Reader : Type 0 where
  pub b : List ℕ
  pub bad : Bool

abbrev failed : Reader
failed = record { b = []; bad = true }

unfoldable pub varint : Reader → Reader × ℕ
unfolding read_varint
varint r =
    let (v, n) = read_varint r.b in
    if ltb 0 n then (record r { b = drop n r.b }, v) else (failed, 0)

unfoldable pub bytes : Reader → ℕ → Reader × List ℕ
bytes r n = if ltb (length r.b) n then (failed, []) else (record r { b = drop n r.b }, take n r.b)

abbrev first_of : Reader → List ℕ → Reader × ℕ
first_of r [] = (record r { bad = true }, 0)
first_of r (b ∷ bs) = (record r { b = bs }, b)

unfoldable pub byte : Reader → Reader × ℕ
byte r = first_of r r.b

-- `v` must be below 2^14.
unfoldable pub append_varint2 : List ℕ → ℕ → List ℕ
append_varint2 b v = b ++ ((byte_at 8 v + 64) ∷ byte_at 0 v ∷ [])

-- A first byte with its mark `k`, and enough bytes after it.
read_marked :
    (k b : ℕ) (bs : List ℕ)
    → b / 64 ≡ k
    → 2 ^ k ≤ suc (length bs)
    → read_varint (b ∷ bs) ≡ (fold (b % 64) (take (2 ^ k - 1) bs), 2 ^ k)
unfolding read_varint
read_marked k b bs e h =
    let enough : ltb (suc (length bs)) (2 ^ k) ≡ false = ground (arith, h) in rw (e, enough) refl

-- Whatever follows an encoding, ReadVarint gives back the value, if it is below 2^62, and the length
-- that VarintLen says, which is that of the encoding.
pub read_varint-append_varint :
    (v : ℕ) (rest : List ℕ)
    → v < 2 ^ 62
    → (read_varint (append_varint [] v ++ rest) ≡ (v, varint_len v))
      × (length (append_varint [] v) ≡ varint_len v)
unfolding append_varint varint_len
read_varint-append_varint v rest h = elim (Bool-cases (ltb v (2 ^ 6))) [
  | inl one ↦
      let small : v < 64 = ground arith in
      rw one (
        read_marked 0 (byte_at 0 v) rest (omega (arith, small)) (omega arith)
            ∙ ap (λ n. (n, 1)) (omega (arith, small)),
        refl,
      )
  | inr more_than_one ↦ rw more_than_one (elim (Bool-cases (ltb v (2 ^ 14))) [
    | inl two ↦
        let small : v < 16384 = ground arith in
        rw two (
          read_marked 1 (marked 64 8 v) (byte_at 0 v ∷ rest) (omega (arith, small)) (omega arith)
              ∙ ap (λ n. (n, 2)) (omega (arith, small)),
          refl,
        )
    | inr more_than_two ↦ rw more_than_two (elim (Bool-cases (ltb v (2 ^ 30))) [
      | inl four ↦
          let small : v < 1073741824 = ground arith in
          rw four (
            read_marked 2 (marked 128 24 v) (byte_at 16 v ∷ byte_at 8 v ∷ byte_at 0 v ∷ rest)
                  (omega (arith, small)) (omega arith)
                ∙ ap (λ n. (n, 4)) (omega (arith, small)),
            refl,
          )
      | inr more_than_four ↦ rw more_than_four (
        read_marked 3 (marked 192 56 v)
              (byte_at 48 v
                ∷ byte_at 40 v
                ∷ byte_at 32 v
                ∷ byte_at 24 v
                ∷ byte_at 16 v
                ∷ byte_at 8 v
                ∷ byte_at 0 v
                ∷ rest)
              (omega (arith, h)) (omega arith)
            ∙ ap (λ n. (n, 8)) (omega (arith, h)),
        refl,
      )
    ])
  ])
]

-- The two-byte encoding is read back, whatever follows it, as the shortest one is, if the value is
-- below 2^14.
pub read_varint-append_varint2 :
    (v : ℕ) (rest : List ℕ) → v < 2 ^ 14 → read_varint (append_varint2 [] v ++ rest) ≡ (v, 2)
unfolding append_varint2
read_varint-append_varint2 v rest h =
    read_marked 1 (byte_at 8 v + 64) (byte_at 0 v ∷ rest) (omega (arith, h)) (omega arith)
    ∙ ap (λ n. (n, 2)) (omega (arith, h))

varint_len_positive : (v : ℕ) → 0 < varint_len v
unfolding varint_len
varint_len_positive v = ground arith

-- A reader takes what AppendVarint wrote off its front, below 2^62, and stays as bad as it was.
pub varint-append_varint :
    (v : ℕ) (rest : List ℕ) (bad : Bool)
    → v < 2 ^ 62
    → varint (record { b = append_varint [] v ++ rest; bad = bad })
      ≡ (record { b = rest; bad = bad }, v)
unfolding varint
varint-append_varint v rest bad h =
    let (read, size) = read_varint-append_varint v rest h in
    let xs = append_varint [] v in
    let none_over : length xs - length xs ≡ 0 = omega arith in
    let some_read : ltb 0 (varint_len v) ≡ true = ground (arith, varint_len_positive v) in
    let left : drop (varint_len v) (xs ++ rest) ≡ rest =
      ap (λ n. drop n (xs ++ rest)) (sym size)
      ∙ drop-append_ge (length xs) xs rest (omega arith)
      ∙ ap (λ n. drop n rest) none_over in
    rw (read, some_read, left) refl
