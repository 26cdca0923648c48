-- ===== src/Hpack/Integers.antt =====
-- The integers of go/internal/hpack/hpack.go are read back as they are written.
use event_work_balance.Base.{
  ℕ, zero, suc, ◌+◌, ◌-◌, ◌*◌, ◌/◌, ◌%◌, ◌^◌, ◌≤◌, ◌<◌, ◌≡◌, refl, sym, ap, ◌∙◌, List, [], ◌∷◌,
  ◌++◌, true, false, ◌==◌, ltb, leb, arith, Bool-cases, inl, inr,
}
use native.Mathlib.Nat.{
  add-mul, mul_assoc, mul_comm, div-add-mod, pow-succ', mul-add-mod_self_left, mod-eq_of_lt,
}
use event_work_balance.Hpack.{ok, read_rest, read_int, append_rest, append_int}

-- Room for a value after `shift` bits, of which at most 56 are used.
abbrev room : ℕ → ℕ
room zero = 1
room (suc k) = 128 * room k

-- A group of seven bits and the rest make the whole.
regroup : (q r w : ℕ) → r * w + q * (128 * w) ≡ (128 * q + r) * w
regroup q r w = omega (
  arith,
  add-mul (128 * q) r w,
  mul_assoc 128 q w,
  sym (mul_assoc q 128 w) ∙ ap (λ x. x * w) (mul_comm q 128),
)

pow_sum : (n m : ℕ) → 2 ^ (n + m) ≡ 2 ^ m * 2 ^ n
pow_sum n zero = let e : n + 0 ≡ n = omega arith in ap (λ k. 2 ^ k) e ∙ omega arith
pow_sum n (suc m) =
    let e : n + suc m ≡ suc (n + m) = omega arith in
    ap (λ k. 2 ^ k) e
    ∙ pow-succ' 2 (n + m)
    ∙ ap (λ x. 2 * x) (pow_sum n m)
    ∙ sym (mul_assoc 2 (2 ^ m) (2 ^ n))
    ∙ ap (λ x. x * 2 ^ n) (sym (pow-succ' 2 m))

grown :
    (value v shift : ℕ)
    → value + v % 128 * 2 ^ shift + v / 128 * 2 ^ (shift + 7) ≡ value + v * 2 ^ shift
grown value v shift =
    let step : 2 ^ (shift + 7) ≡ 128 * 2 ^ shift = pow_sum shift 7 in
    let whole =
      regroup (v / 128) (v % 128) (2 ^ shift) ∙ ap (λ x. x * 2 ^ shift) (div-add-mod v 128) in
    rw step (omega (arith, whole))

-- The last byte of an integer.
read_rest_last :
    (shift value v : ℕ) (rest : List ℕ)
    → v < 128
    → read_rest shift value (v ∷ rest) ≡ ok (value + v * 2 ^ shift, rest)
unfolding read_rest
read_rest_last shift value v rest h =
    let low : v % 128 ≡ v = omega (arith, h) in
    let ends : (v / 128 % 2 == 0) ≡ true = ground (arith, h) in rw (ends, low) refl

-- A byte with others after it.
read_rest_more :
    (shift value v : ℕ) (rest : List ℕ)
    → shift + 7 < 56
    → read_rest shift value ((v % 128 + 128) ∷ rest)
      ≡ read_rest (shift + 7) (value + v % 128 * 2 ^ shift) rest
unfolding read_rest
read_rest_more shift value v rest h =
    let low : (v % 128 + 128) % 128 ≡ v % 128 = omega arith in
    let goes_on : ((v % 128 + 128) / 128 % 2 == 0) ≡ false = ground arith in
    let room_left : leb 56 (shift + 7) ≡ false = ground (arith, h) in
    rw (goes_on, room_left, low) refl

append_rest_more :
    (k fuel shift value v : ℕ) (rest : List ℕ)
    → v < room k
    → k ≤ suc (suc fuel)
    → shift + 7 * k ≤ 56
    → 128 ≤ v
    → ((k : ℕ)
        → v / 128 < room k
        → k ≤ suc fuel
        → shift + 7 + 7 * k ≤ 56
        → read_rest (shift + 7) (value + v % 128 * 2 ^ shift) (append_rest fuel (v / 128) ++ rest)
          ≡ ok (value + v % 128 * 2 ^ shift + v / 128 * 2 ^ (shift + 7), rest))
    → read_rest shift value ((v % 128 + 128) ∷ append_rest fuel (v / 128) ++ rest)
      ≡ ok (value + v * 2 ^ shift, rest)
append_rest_more zero fuel shift value v rest a c d h again = absurd (omega (arith, a))
append_rest_more (suc zero) fuel shift value v rest a c d h again = absurd (omega (arith, a))
append_rest_more (suc (suc k)) fuel shift value v rest a c d h again =
    read_rest_more shift value v (append_rest fuel (v / 128) ++ rest) (omega (arith, d))
    ∙ again (suc k) (omega (arith, a)) (omega (arith, c)) (omega (arith, d))
    ∙ ap (λ n. ok (n, rest)) (grown value v shift)

read_rest-append_rest :
    (k fuel shift value v : ℕ) (rest : List ℕ)
    → v < room k
    → k ≤ suc fuel
    → shift + 7 * k ≤ 56
    → read_rest shift value (append_rest fuel v ++ rest) ≡ ok (value + v * 2 ^ shift, rest)
unfolding append_rest
read_rest-append_rest zero zero shift value v rest a c d =
    read_rest_last shift value v rest (omega (arith, a))
read_rest-append_rest (suc zero) zero shift value v rest a c d =
    read_rest_last shift value v rest (omega (arith, a))
read_rest-append_rest (suc (suc k)) zero shift value v rest a c d = absurd (omega (arith, c))
read_rest-append_rest k (suc fuel) shift value v rest a c d = elim (Bool-cases (leb 128 v)) [
  | inl more ↦ rw more (
      append_rest_more k fuel shift value v rest a c d (ground arith) λ k' a' c' d'.
        read_rest-append_rest k' fuel (shift + 7) (value + v % 128 * 2 ^ shift) (v / 128) rest a' c'
          d')
  | inr last ↦ rw last (read_rest_last shift value v rest (ground arith))
]

pow_positive : (n : ℕ) → 0 < 2 ^ n
pow_positive zero = omega arith
pow_positive (suc n) = omega (arith, pow-succ' 2 n, pow_positive n)

-- What is below a modulus is found again behind a multiple of it.
low_bits : (m first x : ℕ) → first % m ≡ 0 → x < m → (first + x) % m ≡ x
low_bits m first x clear h =
    let whole : first + x ≡ m * (first / m) + x = omega (arith, div-add-mod first m, clear) in
    ap (λ y. y % m) whole ∙ mul-add-mod_self_left m (first / m) x ∙ mod-eq_of_lt h

-- An integer is read back as it was written, with a prefix of `n` bits behind any bits that leave
-- those clear, and whatever bytes follow, if it is below 2^56.
pub read_int-append_int :
    (first n value : ℕ) (rest : List ℕ)
    → first % 2 ^ n ≡ 0
    → value < 2 ^ 56
    → read_int (append_int [] first n value ++ rest) n ≡ ok (value, rest)
unfolding read_int append_int
read_int-append_int first n value rest clear small =
    let mask = 2 ^ n - 1 in
    let positive = pow_positive n in
    elim (Bool-cases (ltb value mask))
      as (λ _. read_int (append_int [] first n value ++ rest) n ≡ ok (value, rest)) [
        | inl short ↦
            let low = low_bits (2 ^ n) first value clear (ground arith) in
            rw (short, low, short) refl
        | inr long ↦
            let low = low_bits (2 ^ n) first mask clear (omega arith) in
            let full : ltb mask mask ≡ false = ground arith in
            let back =
              read_rest-append_rest 8 10 0 mask (value - mask) rest (omega arith) (omega arith)
                (omega arith) in
            let same : mask + (value - mask) * 2 ^ 0 ≡ value = ground arith in
            rw (long, low, full) (back ∙ ap (λ v. ok (v, rest)) same)
      ]
