-- ===== src/Websocket/Utf8/Bulk.antt =====
-- The bulk check of write in go/websocket/utf8.go accepts what the byte by byte check accepts.
use event_work_balance.Base.{
  ℕ, zero, suc, ◌+◌, ◌≤◌, ◌<◌, ◌≡◌, ◌↔◌, ◌⊎◌, inl, inr, refl, sym, ap, subst, ◌∙◌, List, [], ◌∷◌,
  ◌++◌, Bool, true, false, ◌==◌, leb, Option, none, some, arith, if◌then◌else◌, length, Bool-cases,
  Option-cases, All, take, drop, get_elem?, length-append, append_assoc, append-nil,
  take-append-drop, take-all, take-append_le,
}
use event_work_balance.Websocket.Utf8.{
  Validator, fresh, step, steps, tail_from, tail_of, write, write_open, is_continuation,
}
use event_work_balance.Websocket.Utf8.WellFormed.{IsUtf8, steps_iff_IsUtf8}

-- The bounds matter only while a sequence is open.
abbrev pub normal : Validator → Validator
normal v = if v.need == 0 then fresh else v

abbrev pub seen : Option Validator → Option Validator
seen none = none
seen (some v) = some (normal v)

-- After any byte an open sequence awaits continuations, three at most.
abbrev IsSane : Validator → Type 0
IsSane v = (v.need ≡ 0) ⊎ ((128 ≤ v.lo) × (v.hi ≤ 191) × (v.need ≤ 3))

step-IsSane : (v w : Validator) (b : ℕ) → IsSane v → step v b ≡ some w → IsSane w
unfolding step
step-IsSane v w b h e = ground arith

step_closed : (v w : Validator) (b : ℕ) → v.need ≡ 0 → w.need ≡ 0 → step v b ≡ step w b
unfolding step
step_closed v w b e f = ground arith

abbrev pub then_steps : Option Validator → List ℕ → Option Validator
then_steps none q = none
then_steps (some w) q = steps w q

steps-cons : (v : Validator) (b : ℕ) (bs : List ℕ) → steps v (b ∷ bs) ≡ then_steps (step v b) bs
unfolding steps
steps-cons v b bs = elim (Option-cases (step v b)) [
  | inl e ↦ rw (steps, e) refl
  | inr (w, e) ↦ rw (steps, e) refl
]

pub steps_closed :
    (v w : Validator) (p : List ℕ) → v.need ≡ 0 → w.need ≡ 0 → seen (steps v p) ≡ seen (steps w p)
unfolding steps
steps_closed v w [] e f = ground arith
steps_closed v w (b ∷ bs) e f = ap seen (
    steps-cons v b bs ∙ ap (λ o. then_steps o bs) (step_closed v w b e f) ∙ sym (steps-cons w b bs))

then_steps-append :
    (o : Option Validator) (p q : List ℕ)
    → ((w : Validator) → steps w (p ++ q) ≡ then_steps (steps w p) q)
    → then_steps o (p ++ q) ≡ then_steps (then_steps o p) q
then_steps-append none p q h = refl
then_steps-append (some w) p q h = h w

pub steps-append : (v : Validator) (p q : List ℕ) → steps v (p ++ q) ≡ then_steps (steps v p) q
unfolding steps
steps-append v [] q = refl
steps-append v (b ∷ bs) q =
    steps-cons v b (bs ++ q)
    ∙ then_steps-append (step v b) bs q (λ w. steps-append w bs q)
    ∙ ap (λ o. then_steps o q) (sym (steps-cons v b bs))

-- A run that goes on behind `p` was well at the end of `p`.
pub steps_middle :
    (v u : Validator) (p q : List ℕ)
    → steps v (p ++ q) ≡ some u
    → (w : Validator) × (steps v p ≡ some w) × (steps w q ≡ some u)
steps_middle v u p q e = elim (Option-cases (steps v p)) [
  | inl none_left ↦ absurd (cc (rw none_left at (sym (steps-append v p q) ∙ e)))
  | inr (w, s) ↦ (w, s, rw s at (sym (steps-append v p q) ∙ e))
]

pub steps_first :
    (v u : Validator) (b : ℕ) (bs : List ℕ)
    → steps v (b ∷ bs) ≡ some u
    → (w : Validator) × (step v b ≡ some w) × (steps w bs ≡ some u)
steps_first v u b bs e =
    let s = sym (steps-cons v b bs) ∙ e in
    elim (Option-cases (step v b)) [
      | inl h ↦ absurd (cc (rw h at s))
      | inr (w, h) ↦ (w, h, rw h at s)
    ]

steps-IsSane : (v w : Validator) (p : List ℕ) → IsSane v → steps v p ≡ some w → IsSane w
unfolding steps
steps-IsSane v w [] h e = ground (arith, h)
steps-IsSane v w (b ∷ bs) h e =
    let (u, s, rest) = steps_first v w b bs e in steps-IsSane u w bs (step-IsSane v u b h s) rest

-- A continuation closes in on the end of a sequence, and there is none without one.
step_continuation :
    (v w : Validator) (b : ℕ) → is_continuation b ≡ true → step v b ≡ some w → v.need ≡ w.need + 1
unfolding step
step_continuation v w b h e = ground arith

steps_continuations :
    (v w : Validator) (p : List ℕ)
    → All (λ b. is_continuation b ≡ true) p
    → steps v p ≡ some w
    → v.need ≡ w.need + length p
unfolding steps
steps_continuations v w [] h e = ground arith
steps_continuations v w (b ∷ bs) h e =
    let (u, s, rest) = steps_first v w b bs e in
    omega (arith, step_continuation v u b h.0 s, steps_continuations u w bs h.1 rest)

-- A byte that opens a sequence, or stands alone, comes only where none is open.
step_opening : (v w : Validator) (b : ℕ) → IsSane v → 192 ≤ b → step v b ≡ some w → v.need ≡ 0
unfolding step
step_opening v w b h l e = ground arith

step_alone : (v w : Validator) (b : ℕ) → IsSane v → b < 128 → step v b ≡ some w → w.need ≡ 0
unfolding step
step_alone v w b h l e = ground arith

snoc_view : (p : List ℕ) → (p ≡ []) ⊎ ((q : List ℕ) × (b : ℕ) × (p ≡ q ++ (b ∷ [])))
snoc_view [] = inl refl
snoc_view (a ∷ p) = elim (snoc_view p) [
  | inl e ↦ inr ([], a, ap (◌∷◌ a) e)
  | inr (q, b, e) ↦ inr (a ∷ q, b, ap (◌∷◌ a) e)
]

get_elem?-middle : (p : List ℕ) (b : ℕ) (q : List ℕ) → get_elem? (p ++ (b ∷ q)) (length p) ≡ some b
get_elem?-middle [] b q = refl
get_elem?-middle (a ∷ p) b q = get_elem?-middle p b q

-- What follows the place where the look back stops was not in the middle of a sequence.
abbrev Closes : Validator → List ℕ → ℕ → Type 0
Closes v p t = (w : Validator) → steps v (take t p) ≡ some w → w.need ≡ 0

Closes-all :
    (v u : Validator) (p : List ℕ) → steps v p ≡ some u → u.need ≡ 0 → Closes v p (length p)
Closes-all v u p e z w f =
    let same : some w ≡ some u = sym f ∙ ap (steps v) (take-all (length p) p (omega arith)) ∙ e in
    ground (arith, same)

tail_from-at :
    (n i : ℕ) (p : List ℕ) (b : ℕ)
    → get_elem? p i ≡ some b
    → tail_from (suc n) (suc i) p
      ≡ (if is_continuation b then tail_from n i p else if leb 192 b then i else length p)
unfolding tail_from
tail_from-at n i p b e = rw (tail_from, e) refl

-- The look back at a byte `b` before the continuations.
look_back :
    (n : ℕ) (v u : Validator) (q : List ℕ) (b : ℕ) (conts : List ℕ)
    → v.need ≡ 0
    → All (λ b. is_continuation b ≡ true) conts
    → steps v (q ++ (b ∷ conts)) ≡ some u
    → (is_continuation b ≡ true
        → Closes v (q ++ (b ∷ conts)) (tail_from n (length q) (q ++ (b ∷ conts))))
    → Closes v (q ++ (b ∷ conts)) (tail_from (suc n) (suc (length q)) (q ++ (b ∷ conts)))
look_back n v u q b conts z c e further =
    let (w, s, rest) = steps_middle v u q (b ∷ conts) e in
    let (w', s', rest') = steps_first w u b conts rest in
    let sane = steps-IsSane v w q (inl z) s in
    rw (tail_from-at n (length q) (q ++ (b ∷ conts)) b (get_elem?-middle q b conts))
      (elim (Bool-cases (is_continuation b)) [
        | inl cont ↦ rw cont (further cont)
        | inr not_cont ↦ rw not_cont (elim (Bool-cases (leb 192 b)) [
          | inl opening ↦ rw opening λ x f.
              let front : take (length q) (q ++ (b ∷ conts)) ≡ q =
                take-append_le (length q) q (b ∷ conts) (omega arith)
                ∙ take-all (length q) q (omega arith) in
              let same : some x ≡ some w = sym f ∙ ap (steps v) front ∙ s in
              let closed = step_opening w w' b sane (ground arith) s' in
              ground (arith, same, closed)
          | inr alone ↦ rw alone (
              let last = step_alone w w' b sane (ground arith) s' in
              Closes-all v u (q ++ (b ∷ conts)) e
                (omega (arith, last, steps_continuations w' u conts c rest')))
        ])
      ])

tail_from-Closes :
    (n : ℕ) (v u : Validator) (pre conts : List ℕ)
    → n + length conts ≡ 3
    → v.need ≡ 0
    → All (λ b. is_continuation b ≡ true) conts
    → steps v (pre ++ conts) ≡ some u
    → Closes v (pre ++ conts) (tail_from n (length pre) (pre ++ conts))
unfolding tail_from
tail_from-Closes zero v u pre conts k z c e =
    let (w, s, rest) = steps_middle v u pre conts e in
    let closed : u.need ≡ 0 =
      ground (arith, steps_continuations w u conts c rest, steps-IsSane v w pre (inl z) s) in
    Closes-all v u (pre ++ conts) e closed
tail_from-Closes (suc n) v u pre conts k z c e = elim (snoc_view pre) [
  | inl empty ↦
      let e' = subst (λ x. steps v (x ++ conts) ≡ some u) empty e in
      subst (λ x. Closes v (x ++ conts) (tail_from (suc n) (length x) (x ++ conts))) (sym empty)
        (Closes-all v u conts e' (omega (arith, z, steps_continuations v u conts c e')))
  | inr (q, b, at) ↦
      let whole : pre ++ conts ≡ q ++ (b ∷ conts) =
        ap (λ x. x ++ conts) at ∙ append_assoc q (b ∷ []) conts in
      let size : length pre ≡ suc (length q) =
        omega (arith, ap length at, length-append q (b ∷ [])) in
      let e' = sym (ap (steps v) whole) ∙ e in
      rw (whole, size)
        (look_back n v u q b conts z c e'
          λ cont. tail_from-Closes n v u q (b ∷ conts) (omega (arith, k)) z (cont, c) e')
]

module _ (valid : List ℕ → Bool) (documented : (p : List ℕ) → (valid p ≡ true) ↔ IsUtf8 p) where
  write_open-steps :
      (v : Validator) (p : List ℕ) → v.need ≡ 0 → seen (write_open valid v p) ≡ seen (steps v p)
  unfolding write_open
  write_open-steps v p z =
      let t = tail_of p in
      let split : steps v p ≡ then_steps (steps v (take t p)) (drop t p) =
        ap (steps v) (sym (take-append-drop t p)) ∙ steps-append v (take t p) (drop t p) in
      elim (Bool-cases (valid (take t p))) [
        | inl good ↦
            let (w, s, closed) =
              (steps_iff_IsUtf8 v (take t p) z).1 ((documented (take t p)).0 good) in
            rw good (
              steps_closed v w (drop t p) z closed
              ∙ ap seen (ap (λ o. then_steps o (drop t p)) (sym s) ∙ sym split))
        | inr bad ↦ rw bad (
            ap seen (
              sym (elim (Option-cases (steps v p)) [
                | inl refused ↦ refused
                | inr (u, e) ↦
                    let (w, s, rest) =
                      steps_middle v u (take t p) (drop t p)
                        (ap (steps v) (take-append-drop t p) ∙ e) in
                    let closes =
                      rw (append-nil p) at
                        (tail_from-Closes 3 v u p [] refl z tt (ap (steps v) (append-nil p) ∙ e)) in
                    let well = (steps_iff_IsUtf8 v (take t p) z).0 (w, s, closes w s) in
                    absurd (cc (sym bad ∙ (documented (take t p)).1 well))
              ])))
      ]

  then_write : Option Validator → List ℕ → Option Validator
  then_write none p = none
  then_write (some w) p = write valid w p

  write-inside :
      (v : Validator) (b : ℕ) (bs : List ℕ)
      → (v.need == 0) ≡ false
      → write valid v (b ∷ bs) ≡ then_write (step v b) bs
  unfolding write then_write
  write-inside v b bs h = elim (Option-cases (step v b)) [
    | inl e ↦ rw (write, e, h) refl
    | inr (w, e) ↦ rw (write, e, h) refl
  ]

  write-closed :
      (v : Validator) (p : List ℕ) → (v.need == 0) ≡ true → write valid v p ≡ write_open valid v p
  unfolding write
  write-closed v [] h = rw h refl
  write-closed v (b ∷ bs) h = rw h refl

  write-waits : (v : Validator) → (v.need == 0) ≡ false → write valid v [] ≡ some v
  unfolding write
  write-waits v h = ground arith

  then_write-steps :
      (o : Option Validator) (p : List ℕ)
      → ((w : Validator) → seen (write valid w p) ≡ seen (steps w p))
      → seen (then_write o p) ≡ seen (then_steps o p)
  unfolding then_write
  then_write-steps none p h = refl
  then_write-steps (some w) p h = h w

  -- Whatever pieces were written before, write takes a piece when, and only when, its bytes are taken
  -- one by one, and then awaits the same, given that utf8.Valid answers true for exactly the
  -- well-formed texts.
  pub write-steps : (v : Validator) (p : List ℕ) → seen (write valid v p) ≡ seen (steps v p)
  unfolding write steps
  write-steps v [] = elim (Bool-cases (v.need == 0)) [
    | inl closed ↦ ap seen (write-closed v [] closed) ∙ write_open-steps v [] (ground arith)
    | inr midway ↦ ap seen (write-waits v midway)
  ]
  write-steps v (b ∷ bs) = elim (Bool-cases (v.need == 0)) [
    | inl closed ↦
        ap seen (write-closed v (b ∷ bs) closed) ∙ write_open-steps v (b ∷ bs) (ground arith)
    | inr midway ↦
        ap seen (write-inside v b bs midway)
        ∙ then_write-steps (step v b) bs (λ w. write-steps w bs)
        ∙ ap seen (sym (steps-cons v b bs))
  ]
