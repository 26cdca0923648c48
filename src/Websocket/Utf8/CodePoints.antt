-- ===== src/Websocket/Utf8/CodePoints.antt =====
-- What the validator of go/websocket/utf8.go accepts byte by byte are the encodings of code points.
use event_work_balance.Base.{
  ℕ, ◌+◌, ◌-◌, ◌*◌, ◌/◌, ◌%◌, ◌≤◌, ◌<◌, ◌≡◌, ◌↔◌, ◌⊎◌, inl, inr, refl, sym, ap, ◌∙◌, List, [], ◌∷◌,
  ◌++◌, ltb, some, arith, Bool-cases, All, if◌then◌else◌, true, false, ◌==◌, subst,
}
use event_work_balance.Websocket.Utf8.{Validator, steps}
use event_work_balance.Websocket.Utf8.WellFormed.{
  IsUtf8, done, one, two, three, four, Between, IsContinuation, OpensThree, OpensFour,
  steps_iff_IsUtf8,
}

-- The code points of UTF-8: all but the surrogates.
abbrev pub IsScalar : ℕ → Type 0
IsScalar c = (c < 55296) ⊎ (Between 57344 1114111 c)

-- The encoding of a code point.
unfoldable pub encode : ℕ → List ℕ
encode c =
    if ltb c 128
    then c ∷ []
    else if ltb c 2048
    then (192 + c / 64) ∷ (128 + c % 64) ∷ []
    else if ltb c 65536
    then (224 + c / 4096) ∷ (128 + c / 64 % 64) ∷ (128 + c % 64) ∷ []
    else (240 + c / 262144) ∷ (128 + c / 4096 % 64) ∷ (128 + c / 64 % 64) ∷ (128 + c % 64) ∷ []

unfoldable pub encode_all : List ℕ → List ℕ
unfolding encode
encode_all [] = []
encode_all (c ∷ cs) = encode c ++ encode_all cs

byte-IsContinuation : (n : ℕ) → IsContinuation (128 + n % 64)
byte-IsContinuation n = (omega arith, omega arith)

opens_three :
    (c : ℕ)
    → IsScalar c
    → ltb c 2048 ≡ false
    → ltb c 65536 ≡ true
    → OpensThree (224 + c / 4096) (128 + c / 64 % 64)
opens_three c s h k = elim (Bool-cases (c / 4096 == 0)) [
  | inl first ↦ inl (ground arith, (ground arith, ground arith))
  | inr not_first ↦ elim (Bool-cases (c / 4096 == 13)) [
    | inl surrogates ↦ inr (inr (inl (ground arith, (ground arith, ground arith))))
    | inr no_surrogates ↦ elim (Bool-cases (ltb (c / 4096) 13)) [
      | inl below ↦ inr (inl ((ground arith, ground arith), (ground arith, ground arith)))
      | inr above ↦ inr (inr (inr ((ground arith, ground arith), (ground arith, ground arith))))
    ]
  ]
]

opens_four :
    (c : ℕ) → IsScalar c → ltb c 65536 ≡ false → OpensFour (240 + c / 262144) (128 + c / 4096 % 64)
opens_four c s h = elim (Bool-cases (c / 262144 == 0)) [
  | inl first ↦ inl (ground arith, (ground arith, ground arith))
  | inr not_first ↦ elim (Bool-cases (c / 262144 == 4)) [
    | inl last ↦ inr (inr (ground arith, (ground arith, ground arith)))
    | inr not_last ↦ inr (inl ((ground arith, ground arith), (ground arith, ground arith)))
  ]
]

encode-IsUtf8 : (c : ℕ) (rest : List ℕ) → IsScalar c → IsUtf8 rest → IsUtf8 (encode c ++ rest)
unfolding encode
encode-IsUtf8 c rest s u = elim (Bool-cases (ltb c 128)) [
  | inl ascii ↦ rw ascii (one (ground arith) u)
  | inr not_ascii ↦ elim (Bool-cases (ltb c 2048)) [
    | inl short ↦ rw (not_ascii, short) (two (ground arith, ground arith) (byte-IsContinuation c) u)
    | inr long ↦ elim (Bool-cases (ltb c 65536)) [
      | inl basic ↦
          rw (not_ascii, long, basic) (three (opens_three c s long basic) (byte-IsContinuation c) u)
      | inr higher ↦
          rw (not_ascii, long, higher)
            (four (opens_four c s higher) (byte-IsContinuation (c / 64)) (byte-IsContinuation c) u)
    ]
  ]
]

encode_all-IsUtf8 : (cs : List ℕ) → All IsScalar cs → IsUtf8 (encode_all cs)
unfolding encode_all
encode_all-IsUtf8 [] h = done
encode_all-IsUtf8 (c ∷ cs) h = encode-IsUtf8 c (encode_all cs) h.0 (encode_all-IsUtf8 cs h.1)

-- The code point of a sequence.
abbrev point_two : ℕ → ℕ → ℕ
point_two a b = (a - 192) * 64 + (b - 128)

abbrev point_three : ℕ → ℕ → ℕ → ℕ
point_three a b c = (a - 224) * 4096 + (b - 128) * 64 + (c - 128)

abbrev point_four : ℕ → ℕ → ℕ → ℕ → ℕ
point_four a b c d = (a - 240) * 262144 + (b - 128) * 4096 + (c - 128) * 64 + (d - 128)

-- A code point and its encoding.
abbrev Encodes : ℕ → List ℕ → Type 0
Encodes p bytes = IsScalar p × (encode p ≡ bytes)

encode_one : (a : ℕ) → a < 128 → Encodes a (a ∷ [])
unfolding encode
encode_one a h =
    let ascii : ltb a 128 ≡ true = ground arith in (inl (omega (arith, h)), rw ascii refl)

encode_two : (a b : ℕ) → Between 194 223 a → IsContinuation b → Encodes (point_two a b) (a ∷ b ∷ [])
unfolding encode
encode_two a b (h, h') (k, k') =
    let p = point_two a b in
    let not_ascii : ltb p 128 ≡ false = ground arith in
    let short : ltb p 2048 ≡ true = ground arith in
    let first : 192 + p / 64 ≡ a = omega arith in
    let second : 128 + p % 64 ≡ b = omega arith in
    (inl (omega arith), rw (not_ascii, short, first, second) refl)

-- What the table says of the first two bytes, in numbers.
three_in_range :
    (a b : ℕ)
    → OpensThree a b
    → Between 224 239 a × IsContinuation b × ((a ≡ 224) → 160 ≤ b) × ((a ≡ 237) → b ≤ 159)
three_in_range a b o = ground arith

four_in_range :
    (a b : ℕ)
    → OpensFour a b
    → Between 240 244 a × IsContinuation b × ((a ≡ 240) → 144 ≤ b) × ((a ≡ 244) → b ≤ 143)
four_in_range a b o = ground arith

encode_three :
    (a b c : ℕ) → OpensThree a b → IsContinuation c → Encodes (point_three a b c) (a ∷ b ∷ c ∷ [])
unfolding encode
encode_three a b c o (l, l') =
    let p = point_three a b c in
    let ((h, h'), (k, k'), low, high) = three_in_range a b o in
    let not_ascii : ltb p 128 ≡ false = ground arith in
    let long : ltb p 2048 ≡ false = ground arith in
    let basic : ltb p 65536 ≡ true = ground arith in
    let first : 224 + p / 4096 ≡ a = omega arith in
    let second : 128 + p / 64 % 64 ≡ b = omega arith in
    let third : 128 + p % 64 ≡ c = omega arith in
    (
      elim (Bool-cases (ltb a 238)) [
        | inl x ↦ inl (ground arith)
        | inr x ↦ inr (ground arith, ground arith)
      ],
      rw (not_ascii, long, basic, first, second, third) refl,
    )

encode_four :
    (a b c d : ℕ)
    → OpensFour a b
    → IsContinuation c
    → IsContinuation d
    → Encodes (point_four a b c d) (a ∷ b ∷ c ∷ d ∷ [])
unfolding encode
encode_four a b c d o (l, l') (m, m') =
    let p = point_four a b c d in
    let ((h, h'), (k, k'), low, high) = four_in_range a b o in
    let not_ascii : ltb p 128 ≡ false = ground arith in
    let long : ltb p 2048 ≡ false = ground arith in
    let higher : ltb p 65536 ≡ false = ground arith in
    let first : 240 + p / 262144 ≡ a = omega arith in
    let second : 128 + p / 4096 % 64 ≡ b = omega arith in
    let third : 128 + p / 64 % 64 ≡ c = omega arith in
    let fourth : 128 + p % 64 ≡ d = omega arith in
    (
      inr (ground arith, ground arith),
      rw (not_ascii, long, higher, first, second, third, fourth) refl,
    )

-- The code points of a text.
abbrev pub IsText : List ℕ → Type 0
IsText p = (cs : List ℕ) × All IsScalar cs × (p ≡ encode_all cs)

IsText-cons : (c : ℕ) (front rest : List ℕ) → Encodes c front → IsText rest → IsText (front ++ rest)
unfolding encode_all
IsText-cons c front rest (s, e) (cs, all, f) =
    (c ∷ cs, (s, all), ap (λ xs. xs ++ rest) (sym e) ∙ ap (◌++◌ (encode c)) f)

IsUtf8-IsText : {p : List ℕ} → IsUtf8 p → IsText p
unfolding encode_all
IsUtf8-IsText done = ([], tt, refl)
IsUtf8-IsText (one {a} {rest} h u) = IsText-cons a (a ∷ []) rest (encode_one a h) (IsUtf8-IsText u)
IsUtf8-IsText (two {a} {b} {rest} h k u) =
    IsText-cons (point_two a b) (a ∷ b ∷ []) rest (encode_two a b h k) (IsUtf8-IsText u)
IsUtf8-IsText (three {a} {b} {c} {rest} h k u) =
    IsText-cons (point_three a b c) (a ∷ b ∷ c ∷ []) rest (encode_three a b c h k) (IsUtf8-IsText u)
IsUtf8-IsText (four {a} {b} {c} {d} {rest} h k l u) =
    IsText-cons (point_four a b c d) (a ∷ b ∷ c ∷ d ∷ []) rest (encode_four a b c d h k l)
      (IsUtf8-IsText u)

-- Between sequences, the bytes that the validator takes one by one, and that leave no sequence open,
-- are exactly the encodings, end to end, of code points that are not surrogates.
pub steps_iff_IsText :
    (v : Validator) (p : List ℕ)
    → v.need ≡ 0
    → ((w : Validator) × (steps v p ≡ some w) × (w.need ≡ 0)) ↔ IsText p
steps_iff_IsText v p e =
    let (there, back) = steps_iff_IsUtf8 v p e in
    (
      λ acc. IsUtf8-IsText (there acc),
      λ (cs, all, f). back (subst IsUtf8 (sym f) (encode_all-IsUtf8 cs all)),
    )
