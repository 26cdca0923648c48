-- ===== src/Websocket/Utf8/WellFormed.antt =====
-- What the validator of go/websocket/utf8.go accepts byte by byte is well-formed UTF-8, as table 3-7
-- of the Unicode standard has it.
use event_work_balance.Base.{
  ℕ, zero, suc, ◌≤◌, ◌<◌, ◌≡◌, ◌↔◌, ◌⊎◌, inl, inr, refl, sym, ap, subst, ◌∙◌, List, [], ◌∷◌, ◌&&◌,
  ltb, leb, some, arith, length, Bool-cases, Option-cases,
}
use event_work_balance.Websocket.Utf8.{Validator, step, steps}

abbrev pub Between : ℕ → ℕ → ℕ → Type 0
Between lo hi b = (lo ≤ b) × (b ≤ hi)

abbrev pub IsContinuation : ℕ → Type 0
IsContinuation = Between 128 191

-- The first two bytes of a sequence of three, and of four.
abbrev pub OpensThree : ℕ → ℕ → Type 0
OpensThree a b =
    ((a ≡ 224) × Between 160 191 b)
    ⊎ (Between 225 236 a × IsContinuation b)
    ⊎ ((a ≡ 237) × Between 128 159 b)
    ⊎ (Between 238 239 a × IsContinuation b)

abbrev pub OpensFour : ℕ → ℕ → Type 0
OpensFour a b =
    ((a ≡ 240) × Between 144 191 b)
    ⊎ (Between 241 243 a × IsContinuation b)
    ⊎ ((a ≡ 244) × Between 128 143 b)

pub data IsUtf8 : List ℕ → Type 0 where
  done : IsUtf8 []
  one : {a : ℕ} {rest : List ℕ} → a < 128 → IsUtf8 rest → IsUtf8 (a ∷ rest)
  two :
      {a b : ℕ} {rest : List ℕ}
      → Between 194 223 a
      → IsContinuation b
      → IsUtf8 rest
      → IsUtf8 (a ∷ b ∷ rest)
  three :
      {a b c : ℕ} {rest : List ℕ}
      → OpensThree a b
      → IsContinuation c
      → IsUtf8 rest
      → IsUtf8 (a ∷ b ∷ c ∷ rest)
  four :
      {a b c d : ℕ} {rest : List ℕ}
      → OpensFour a b
      → IsContinuation c
      → IsContinuation d
      → IsUtf8 rest
      → IsUtf8 (a ∷ b ∷ c ∷ d ∷ rest)

-- The rest of a run after its first byte.
steps_after :
    (v w : Validator) (b : ℕ) (bs : List ℕ) → step v b ≡ some w → steps v (b ∷ bs) ≡ steps w bs
unfolding steps
steps_after v w b bs e = rw (steps, e) refl

abbrev pub AcceptsAll : Validator → List ℕ → Type 0
AcceptsAll v p = (w : Validator) × (steps v p ≡ some w) × (w.need ≡ 0)

abbrev within : ℕ → ℕ → ℕ → Validator
within need lo hi = record { need = need; lo = lo; hi = hi }

abbrev between : ℕ → Validator
between n = within n 128 191

step_within : (n lo hi b : ℕ) → Between lo hi b → step (within (suc n) lo hi) b ≡ some (between n)
unfolding step
step_within n lo hi b h = ground arith

pub step_one : (v : Validator) (a : ℕ) → v.need ≡ 0 → a < 128 → step v a ≡ some (between 0)
unfolding step
step_one v a e h = ground arith

step_two : (v : Validator) (a : ℕ) → v.need ≡ 0 → Between 194 223 a → step v a ≡ some (between 1)
unfolding step
step_two v a e h = ground arith

-- A first byte of a sequence of three, or of four, bounds the second as its table does.
step_three :
    (v : Validator) (a b : ℕ)
    → v.need ≡ 0
    → OpensThree a b
    → (lo : ℕ) × (hi : ℕ) × (step v a ≡ some (within 2 lo hi)) × Between lo hi b
unfolding step
step_three v a b e (inl (h, r)) = (160, 191, ground arith, r)
step_three v a b e (inr (inl (h, r))) = (128, 191, ground arith, r)
step_three v a b e (inr (inr (inl (h, r)))) = (128, 159, ground arith, r)
step_three v a b e (inr (inr (inr (h, r)))) = (128, 191, ground arith, r)

step_four :
    (v : Validator) (a b : ℕ)
    → v.need ≡ 0
    → OpensFour a b
    → (lo : ℕ) × (hi : ℕ) × (step v a ≡ some (within 3 lo hi)) × Between lo hi b
unfolding step
step_four v a b e (inl (h, r)) = (144, 191, ground arith, r)
step_four v a b e (inr (inl (h, r))) = (128, 191, ground arith, r)
step_four v a b e (inr (inr (h, r))) = (128, 143, ground arith, r)

AcceptsAll-cons :
    (v w : Validator) (b : ℕ) (bs : List ℕ)
    → step v b ≡ some w
    → AcceptsAll w bs
    → AcceptsAll v (b ∷ bs)
AcceptsAll-cons v w b bs e (u, s, n) = (u, steps_after v w b bs e ∙ s, n)

pub IsUtf8-AcceptsAll : (v : Validator) {p : List ℕ} → v.need ≡ 0 → IsUtf8 p → AcceptsAll v p
unfolding steps
IsUtf8-AcceptsAll v e done = (v, refl, e)
IsUtf8-AcceptsAll v e (one {a} {rest} h u) =
    AcceptsAll-cons v (between 0) a rest (step_one v a e h) (IsUtf8-AcceptsAll (between 0) refl u)
IsUtf8-AcceptsAll v e (two {a} {b} {rest} h k u) =
    AcceptsAll-cons v (between 1) a (b ∷ rest) (step_two v a e h) (
      AcceptsAll-cons (between 1) (between 0) b rest (step_within 0 128 191 b k)
        (IsUtf8-AcceptsAll (between 0) refl u))
IsUtf8-AcceptsAll v e (three {a} {b} {c} {rest} h k u) =
    let (lo, hi, opens, r) = step_three v a b e h in
    AcceptsAll-cons v (within 2 lo hi) a (b ∷ c ∷ rest) opens (
      AcceptsAll-cons (within 2 lo hi) (between 1) b (c ∷ rest) (step_within 1 lo hi b r) (
        AcceptsAll-cons (between 1) (between 0) c rest (step_within 0 128 191 c k)
          (IsUtf8-AcceptsAll (between 0) refl u)))
IsUtf8-AcceptsAll v e (four {a} {b} {c} {d} {rest} h k l u) =
    let (lo, hi, opens, r) = step_four v a b e h in
    AcceptsAll-cons v (within 3 lo hi) a (b ∷ c ∷ d ∷ rest) opens (
      AcceptsAll-cons (within 3 lo hi) (between 2) b (c ∷ d ∷ rest) (step_within 2 lo hi b r) (
        AcceptsAll-cons (between 2) (between 1) c (d ∷ rest) (step_within 1 128 191 c k) (
          AcceptsAll-cons (between 1) (between 0) d rest (step_within 0 128 191 d l)
            (IsUtf8-AcceptsAll (between 0) refl u))))

-- Of a run that is accepted, the first byte was.
AcceptsAll-first :
    (v : Validator) (b : ℕ) (bs : List ℕ)
    → AcceptsAll v (b ∷ bs)
    → (w : Validator) × (step v b ≡ some w) × AcceptsAll w bs
unfolding steps
AcceptsAll-first v b bs (u, s, n) = elim (Option-cases (step v b)) [
  | inl e ↦ absurd (cc (sym (rw (steps, e) at s)))
  | inr (w, e) ↦ (w, e, (u, sym (steps_after v w b bs e) ∙ s, n))
]

-- What the first byte may be, by what it lets follow.
step_opens :
    (v w : Validator) (a : ℕ)
    → v.need ≡ 0
    → step v a ≡ some w
    → ((a < 128) × (w.need ≡ 0))
      ⊎ (Between 194 223 a × (w ≡ between 1))
      ⊎ ((w.need ≡ 2) × ((b : ℕ) → Between w.lo w.hi b → OpensThree a b))
      ⊎ ((w.need ≡ 3) × ((b : ℕ) → Between w.lo w.hi b → OpensFour a b))
unfolding step
step_opens v w a e s = elim (Bool-cases (ltb a 128)) [
  | inl ascii ↦ inl (ground arith, ground arith)
  | inr not_ascii ↦ elim (Bool-cases (leb 194 a && leb a 223)) [
    | inl opens_two ↦ inr (inl (ground arith, ground arith))
    | inr not_two ↦ elim (Bool-cases (leb 224 a && leb a 239)) [
      | inl opens_three ↦ inr (inr (inl (ground arith, λ b r. ground arith)))
      | inr not_three ↦ inr (inr (inr (ground arith, λ b r. ground arith)))
    ]
  ]
]

step_inside :
    (v w : Validator) (n b : ℕ)
    → v.need ≡ suc n
    → step v b ≡ some w
    → Between v.lo v.hi b × (w ≡ between n)
unfolding step
step_inside v w n b e s = ground arith

-- Each continuation that is awaited comes.
inside_first :
    (v : Validator) (n : ℕ) (bs : List ℕ)
    → v.need ≡ suc n
    → AcceptsAll v bs
    → (b : ℕ) × (rest : List ℕ) × (bs ≡ b ∷ rest)
      × Between v.lo v.hi b
      × AcceptsAll (between n) rest
unfolding steps
inside_first v n [] e (u, s, z) = absurd (ground arith)
inside_first v n (b ∷ bs) e acc =
    let (w, s, rest) = AcceptsAll-first v b bs acc in
    let (r, same) = step_inside v w n b e s in
    (b, bs, refl, r, subst (λ u. AcceptsAll u bs) same rest)

AcceptsAll-IsUtf8 :
    (n : ℕ) (v : Validator) (p : List ℕ) → length p ≤ n → v.need ≡ 0 → AcceptsAll v p → IsUtf8 p
AcceptsAll-IsUtf8 n v [] h e acc = done
AcceptsAll-IsUtf8 zero v (a ∷ bs) h e acc = absurd (omega arith)
AcceptsAll-IsUtf8 (suc n) v (a ∷ bs) h e acc =
    let (w, s, rest) = AcceptsAll-first v a bs acc in
    elim (step_opens v w a e s) [
      | inl (low, z) ↦ one low (AcceptsAll-IsUtf8 n w bs (omega (arith, h)) z rest)
      | inr (inl (opens, same)) ↦
          let (b, bs', at, r, more) =
            inside_first (between 1) 0 bs refl (subst (λ u. AcceptsAll u bs) same rest) in
          rw at (
            two opens r
              (AcceptsAll-IsUtf8 n (between 0) bs' (omega (arith, h, ap length at)) refl more))
      | inr (inr (inl (need, opens))) ↦
          let (b, bs', at, r, more) = inside_first w 1 bs need rest in
          let (c, bs'', at', r', more') = inside_first (between 1) 0 bs' refl more in
          rw at (
            rw at' (
              three (opens b r) r' (
                AcceptsAll-IsUtf8 n (between 0) bs'' (omega (arith, h, ap length at, ap length at'))
                  refl more')))
      | inr (inr (inr (need, opens))) ↦
          let (b, bs', at, r, more) = inside_first w 2 bs need rest in
          let (c, bs'', at', r', more') = inside_first (between 2) 1 bs' refl more in
          let (d, bs3, at3, r3, more3) = inside_first (between 1) 0 bs'' refl more' in
          rw at (
            rw at' (
              rw at3 (
                four (opens b r) r' r3 (
                  AcceptsAll-IsUtf8 n (between 0) bs3
                    (omega (arith, h, ap length at, ap length at', ap length at3)) refl more3))))
    ]

-- Between sequences, the bytes that the validator takes one by one, and that leave no sequence open,
-- are exactly the well-formed UTF-8 texts.
pub steps_iff_IsUtf8 :
    (v : Validator) (p : List ℕ)
    → v.need ≡ 0
    → ((w : Validator) × (steps v p ≡ some w) × (w.need ≡ 0)) ↔ IsUtf8 p
steps_iff_IsUtf8 v p e =
    (AcceptsAll-IsUtf8 (length p) v p (omega arith) e, λ u. IsUtf8-AcceptsAll v e u)
