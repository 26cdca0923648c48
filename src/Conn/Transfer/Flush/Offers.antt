-- ===== src/Conn/Transfer/Flush/Offers.antt =====
-- What a flush round of go/connection.go offers the socket is the front of what is owed.
use event_work_balance.Base.{
  ℕ, zero, suc, ◌+◌, ◌-◌, ◌≤◌, ◌≡◌, refl, sym, ap, ◌∙◌, List, [], ◌∷◌, ◌++◌, Bool, Option, none,
  some, arith, min, length, take, drop, All, length-append, length-drop, append_assoc, append-nil,
  true, ◌⊎◌, inl, inr, Option-cases, take-append-drop, take-append_le, drop-nil,
}
use event_work_balance.Conn.State.{FileSegment, SendItem}
use event_work_balance.Conn.SendQueue.{bytes_of}
use event_work_balance.Conn.SendQueue.Stream.{
  file_bytes, segment_bytes, items_bytes, reach, length-file_bytes,
}
use event_work_balance.Conn.Transfer.Calls.{
  Calls, Sent, sys_send_file, send_file_chunk, max_send_file_call,
}
use event_work_balance.Conn.Transfer.Flush.{batch, batch_size, offer}

abbrev pub Starts {ℓ} : {A : Type ℓ} → List A → List A → Type ℓ
Starts {A} part whole = (rest : List A) × (whole ≡ part ++ rest)

-- On the readiness backends a file is never staged.
abbrev pub IsUnstaged : SendItem → Type 0
IsUnstaged item = elim item.file [ none ↦ Unit {0} | some s ↦ item.chunk ≡ none ]

Starts-append {ℓ} :
    {A : Type ℓ} (front part whole : List A)
    → Starts part whole
    → Starts (front ++ part) (front ++ whole)
Starts-append front part whole (rest, e) = (rest, rw e (sym (append_assoc front part rest)))

Starts-left {ℓ} :
    {A : Type ℓ} (part whole tail : List A) → Starts part whole → Starts part (whole ++ tail)
Starts-left part whole tail (rest, e) = (rest ++ tail, rw e (append_assoc part rest tail))

Starts-take {ℓ} :
    {A : Type ℓ} (n : ℕ) (part whole : List A) → Starts part whole → Starts (take n part) whole
Starts-take n part whole (rest, e) = (
  drop n part ++ rest,
  e ∙ ap (λ xs. xs ++ rest) (sym (take-append-drop n part)) ∙ append_assoc (take n part) _ rest,
)

length-Starts {ℓ} :
    {A : Type ℓ} (part whole : List A) → Starts part whole → length part ≤ length whole
length-Starts part whole (rest, e) = omega (arith, ap length e, length-append part rest)

-- A write that takes `n` bytes of the front moves them, and nothing else, to the wire.
pub take-drop-Starts {ℓ} :
    {A : Type ℓ} (n : ℕ) (part whole : List A)
    → Starts part whole
    → n ≤ length part
    → take n part ++ drop n whole ≡ whole
take-drop-Starts n part whole (rest, e) h =
    ap (λ xs. xs ++ drop n whole) (sym (take-append_le n part rest h))
    ∙ ap (λ xs. take n xs ++ drop n whole) (sym e)
    ∙ take-append-drop n whole

module _ (contents : ℕ → ℕ → ℕ) where
  file_bytes-add :
      (fd offset a b : ℕ)
      → file_bytes contents fd offset (a + b)
        ≡ file_bytes contents fd offset a ++ file_bytes contents fd (offset + a) b
  file_bytes-add fd offset zero b =
      let e : offset + 0 ≡ offset = omega arith in let e' : 0 + b ≡ b = omega arith in rw (e, e')
  file_bytes-add fd offset (suc a) b =
      let e : offset + suc a ≡ suc offset + a = omega arith in
      let e' : suc a + b ≡ suc (a + b) = omega arith in
      rw (e, e') (ap (◌∷◌ (contents fd offset)) (file_bytes-add fd (suc offset) a b))

  file_bytes-Starts :
      (s : FileSegment) (k : ℕ)
      → Starts
          (file_bytes contents s.fd s.offset (min s.remaining k))
          (file_bytes contents s.fd s.offset s.remaining)
  file_bytes-Starts s k =
      let m = min s.remaining k in
      let e : s.remaining ≡ m + (s.remaining - m) = omega arith in
      (
        file_bytes contents s.fd (s.offset + m) (s.remaining - m),
        ap (file_bytes contents s.fd s.offset) e ∙ file_bytes-add s.fd s.offset m (s.remaining - m),
      )

  batch_item-Starts :
      (file : Option FileSegment) (front part whole : List ℕ)
      → Starts part whole
      → Starts
          (elim file as (λ _. List ℕ) [ none ↦ front ++ part | some s ↦ [] ])
          ((front ++ segment_bytes contents file) ++ whole)
  batch_item-Starts none front part whole h =
      rw (append-nil front) (Starts-append front part whole h)
  batch_item-Starts (some s) front part whole h =
      ((front ++ segment_bytes contents (some s)) ++ whole, refl)

  batch-Starts :
      (k : ℕ) (items : List SendItem) → Starts (batch k items) (items_bytes contents items)
  batch-Starts zero items = (items_bytes contents items, refl)
  batch-Starts (suc k) [] = ([], refl)
  batch-Starts (suc k) (item ∷ items) =
      batch_item-Starts item.file (drop item.offset (bytes_of item.chunk)) (batch k items)
        (items_bytes contents items) (batch-Starts k items)

  length-batch-le : (k : ℕ) (items : List SendItem) → length (batch k items) ≤ reach items
  length-batch-le zero items = omega arith
  length-batch-le (suc k) [] = omega arith
  length-batch-le (suc k) (item ∷ items) = ground (
    arith,
    length-batch-le k items,
    length-append (drop item.offset (bytes_of item.chunk)) (batch k items),
    length-drop item.offset (bytes_of item.chunk),
  )

  -- The contract of a round's offer.
  pub record IsOffer (items : List SendItem) (sent : Sent) : Type 0 where
    pub starts : Starts sent.offered (items_bytes contents items)
    pub within : length sent.offered ≤ reach items

  sys_send_file_cases :
      (s : FileSegment) (calls : Calls) (sent : Sent)
      → sys_send_file contents s calls ≡ some sent
      → ((sent.offered
            ≡ take calls.pread.count
                (file_bytes contents s.fd s.offset (min s.remaining send_file_chunk)))
          ⊎ (sent.offered ≡ file_bytes contents s.fd s.offset (min s.remaining max_send_file_call)))
        × (sent.from_file ≡ true)
        × ((sent.segment ≡ some s) ⊎ (sent.segment ≡ some (record s { copying = true })))
  unfolding sys_send_file
  sys_send_file_cases s calls sent e = ground arith

  -- The front of a file at the head of the queue is the front of what is owed.
  IsOffer-file :
      (head : SendItem) (items : List SendItem) (s : FileSegment) (part : List ℕ) (sent : Sent)
      → head.file ≡ some s
      → head.chunk ≡ none
      → sent.offered ≡ part
      → Starts part (file_bytes contents s.fd s.offset s.remaining)
      → IsOffer (head ∷ items) sent
  IsOffer-file head items s part sent f u e st = record {
    starts =
        rw (e, f, u, drop-nil head.offset) (Starts-left part _ (items_bytes contents items) st);
    within = ground (
      arith,
      ap length e,
      length-Starts part _ st,
      length-file_bytes contents s.fd s.offset s.remaining,
    );
  }

  pub offer-IsOffer :
      (use_writev : Bool) (calls : Calls) (items : List SendItem) (sent : Sent)
      → All IsUnstaged items
      → offer contents use_writev calls items ≡ some sent
      → IsOffer items sent
  unfolding offer
  offer-IsOffer use_writev calls [] sent u e = cc
  offer-IsOffer use_writev calls (head ∷ items) sent u e = elim (Option-cases head.file) [
    | inl f ↦
        let k = batch_size use_writev (head ∷ items) in
        let same : sent.offered ≡ batch k (head ∷ items) = ground arith in
        record {
          starts = rw same (batch-Starts k (head ∷ items));
          within = rw same (length-batch-le k (head ∷ items));
        }
    | inr (s, f) ↦
        let call : sys_send_file contents s calls ≡ some sent = ground arith in
        let bare : head.chunk ≡ none = ground arith in
        elim (sys_send_file_cases s calls sent call).0 [
          | inl copied ↦
              IsOffer-file head items s _ sent f bare copied
                (Starts-take calls.pread.count _ _ (file_bytes-Starts s send_file_chunk))
          | inr spliced ↦
              IsOffer-file head items s _ sent f bare spliced
                (file_bytes-Starts s max_send_file_call)
        ]
  ]

  -- The segment that a round leaves: none, or that of the head, which may be marked for copying.
  pub offer_segment :
      (use_writev : Bool) (calls : Calls) (head : SendItem) (items : List SendItem) (sent : Sent)
      → offer contents use_writev calls (head ∷ items) ≡ some sent
      → (sent.segment ≡ none)
        ⊎ ((s t : FileSegment) × (sent.segment ≡ some s)
            × (head.file ≡ some t)
            × ((s ≡ t) ⊎ (s ≡ record t { copying = true })))
  unfolding offer
  offer_segment use_writev calls head items sent e = elim (Option-cases head.file) [
    | inl f ↦ inl (ground arith)
    | inr (t, f) ↦
        let call : sys_send_file contents t calls ≡ some sent = ground arith in
        elim (sys_send_file_cases t calls sent call).2 [
          | inl same ↦ inr (t, t, same, f, inl refl)
          | inr marked ↦ inr (record t { copying = true }, t, marked, f, inr refl)
        ]
  ]
