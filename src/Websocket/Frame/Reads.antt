-- ===== src/Websocket/Frame/Reads.antt =====
-- What the parser of go/websocket/frame.go finds out about a text, in whatever pieces it is checked.
use event_work_balance.Base.{
  ℕ, zero, suc, ◌+◌, ◌≤◌, ◌<◌, ◌≡◌, ◌↔◌, inl, inr, refl, sym, ap, ◌∙◌, List, [], ◌∷◌, ◌++◌, Bool,
  true, false, ◌==◌, leb, Option, none, some, arith, if◌then◌else◌, length, take, drop, Bool-cases,
  Option-cases, length-drop, take-append-drop, get_elem?, ◌%◌,
}
use event_work_balance.Websocket.Utf8.{Validator, fresh, steps, write, complete}
use event_work_balance.Websocket.Utf8.WellFormed.{IsUtf8}
use event_work_balance.Websocket.Utf8.Bulk.{
  normal, seen, then_steps, steps-append, steps_closed, write-steps,
}
use event_work_balance.Websocket.Frame.{Parser, Head, masked_from, mask_byte, unmask_by, unmask}
use event_work_balance.Websocket.Frame.Next.{write_chunks, check_partial_text}

-- Reading `p` from `v` on, with what no longer matters forgotten.
abbrev pub reads : Validator → List ℕ → Option Validator
reads v p = seen (steps v p)

abbrev pub then_reads : Option Validator → List ℕ → Option Validator
then_reads none q = none
then_reads (some w) q = reads w q

pub reads-normal : (v : Validator) (p : List ℕ) → reads (normal v) p ≡ reads v p
reads-normal v p = elim (Bool-cases (v.need == 0)) [
  | inl closed ↦
      let same : normal v ≡ fresh = rw closed refl in
      ap (λ w. reads w p) same ∙ steps_closed fresh v p refl (ground arith)
  | inr midway ↦ let same : normal v ≡ v = ground arith in ap (λ w. reads w p) same
]

pub then_reads-seen :
    (o : Option Validator) (q : List ℕ) → then_reads (seen o) q ≡ seen (then_steps o q)
then_reads-seen none q = refl
then_reads-seen (some w) q = reads-normal w q

pub reads-append : (v : Validator) (p q : List ℕ) → reads v (p ++ q) ≡ then_reads (reads v p) q
reads-append v p q = ap seen (steps-append v p q) ∙ sym (then_reads-seen (steps v p) q)

pub length-masked_from :
    (mask : List ℕ) (i : ℕ) (xs : List ℕ) → length (masked_from mask i xs) ≡ length xs
length-masked_from mask i [] = refl
length-masked_from mask i (b ∷ bs) = ap suc (length-masked_from mask (i + 1) bs)

pub length-unmask :
    (masked : Bool) (mask xs : List ℕ) → length (unmask_by masked mask xs) ≡ length xs
length-unmask true mask xs = length-masked_from mask 0 xs
length-unmask false mask xs = refl

take-masked_from :
    (k : ℕ) (mask : List ℕ) (i : ℕ) (xs : List ℕ)
    → take k (masked_from mask i xs) ≡ masked_from mask i (take k xs)
take-masked_from zero mask i xs = refl
take-masked_from (suc k) mask i [] = refl
take-masked_from (suc k) mask i (b ∷ bs) =
    ap (◌∷◌ (mask_byte (get_elem? mask (i % 4)) b)) (take-masked_from k mask (i + 1) bs)

pub take-unmask :
    (masked : Bool) (k : ℕ) (mask xs : List ℕ)
    → take k (unmask_by masked mask xs) ≡ unmask_by masked mask (take k xs)
take-unmask true k mask xs = take-masked_from k mask 0 xs
take-unmask false k mask xs = refl

-- A text that is whole is good when it reads to an end.
abbrev pub good : Option Validator → Bool
good none = false
good (some v) = complete v

module _ (valid : List ℕ → Bool) (flate : List ℕ → List ℕ → List ℕ × Bool)
    (documented : (p : List ℕ) → (valid p ≡ true) ↔ IsUtf8 p) where
  abbrev then_chunks : ℕ → Option Validator → List ℕ → Option Validator
  then_chunks fuel none p = none
  then_chunks fuel (some w) p = write_chunks valid flate fuel w p

  write_chunks-cons :
      (fuel : ℕ) (v : Validator) (b : ℕ) (bs : List ℕ)
      → write_chunks valid flate (suc fuel) v (b ∷ bs)
        ≡ then_chunks fuel (write valid v (take 512 (b ∷ bs))) (drop 512 (b ∷ bs))
  unfolding write_chunks
  write_chunks-cons fuel v b bs = elim (Option-cases (write valid v (take 512 (b ∷ bs)))) [
    | inl e ↦ rw (write_chunks, e) refl
    | inr (w, e) ↦ rw (write_chunks, e) refl
  ]

  then_chunks-reads :
      (fuel : ℕ) (o : Option Validator) (p : List ℕ)
      → ((w : Validator) → seen (write_chunks valid flate fuel w p) ≡ reads w p)
      → seen (then_chunks fuel o p) ≡ then_reads (seen o) p
  then_chunks-reads fuel none p h = refl
  then_chunks-reads fuel (some w) p h = h w ∙ sym (reads-normal w p)

  pub write_chunks-reads :
      (fuel : ℕ) (v : Validator) (p : List ℕ)
      → length p ≤ fuel
      → seen (write_chunks valid flate fuel v p) ≡ reads v p
  unfolding write_chunks steps
  write_chunks-reads zero v [] h = refl
  write_chunks-reads zero v (b ∷ bs) h = absurd (omega arith)
  write_chunks-reads (suc fuel) v [] h = refl
  write_chunks-reads (suc fuel) v (b ∷ bs) h =
      let rest = drop 512 (b ∷ bs) in
      let size : length rest ≤ fuel = omega (arith, h, length-drop 512 (b ∷ bs)) in
      ap seen (write_chunks-cons fuel v b bs)
      ∙ then_chunks-reads fuel (write valid v (take 512 (b ∷ bs))) rest
          (λ w. write_chunks-reads fuel w rest size)
      ∙ ap (λ o. then_reads o rest) (write-steps valid documented v (take 512 (b ∷ bs)))
      ∙ sym (reads-append v (take 512 (b ∷ bs)) rest)
      ∙ ap (reads v) (take-append-drop 512 (b ∷ bs))

  -- What a check of a frame that is not whole makes of the parser, when `o` is the validator after it.
  abbrev pub checked_so_far : Parser → ℕ → Option Validator → Option Parser
  checked_so_far p n none = none
  checked_so_far p n (some v) = some (record p { text = v; text_checked = n })

  -- The validator after what is new of a frame that is not whole.
  abbrev pub written : Parser → Head → List ℕ → Option Validator
  written p h bytes =
      if h.masked
      then write_chunks valid flate (length bytes) p.text bytes
      else write valid p.text bytes

  pub written-reads :
      (p : Parser) (h : Head) (bytes : List ℕ) → seen (written p h bytes) ≡ reads p.text bytes
  written-reads p h bytes = elim (Bool-cases h.masked) [
    | inl m ↦ rw m (write_chunks-reads (length bytes) p.text bytes (omega arith))
    | inr m ↦ rw m (write-steps valid documented p.text bytes)
  ]

  pub check_partial_text_new :
      (p : Parser) (h : Head) (available : List ℕ)
      → p.text_checked < length available
      → check_partial_text valid flate p h available
        ≡ checked_so_far p
            (length available)
            (written p h (drop p.text_checked (unmask h available)))
  unfolding check_partial_text
  check_partial_text_new p h available new =
      let some_new : leb (length available) p.text_checked ≡ false = ground (arith, new) in
      elim (Option-cases (written p h (drop p.text_checked (unmask h available)))) [
        | inl e ↦ rw (check_partial_text, some_new, e) refl
        | inr (w, e) ↦ rw (check_partial_text, some_new, e) refl
      ]
