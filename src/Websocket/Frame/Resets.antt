-- ===== src/Websocket/Frame/Resets.antt =====
-- Reset of go/websocket/frame.go, in the middle of a message and outside of one.
use event_work_balance.Base.{
  ℕ, ◌%◌, ◌≡◌, inl, inr, refl, ap, ◌∙◌, List, ◌∷◌, Bool, true, false, none, some, arith, Bool-cases,
}
use event_work_balance.Websocket.Frame.{
  Parser, Fragment, protocol, wrong, check_bits, check_order, first_head, is_data, read_head,
}
use event_work_balance.Websocket.Frame.Next.{failed, next, next_of}
use event_work_balance.Websocket.Frame.Feed.{reset}
use event_work_balance.Websocket.Frame.Again.{IsReady, read_head_same}

reset_order :
    (p : Parser) (f : Fragment) (first second : ℕ)
    → p.fragment ≡ some f
    → is_data (first % 16) ≡ true
    → check_order (reset false p) (first_head first second) second ≡ true
unfolding check_order reset
reset_order p f first second e d = rw e (ground (arith, d))

read_head-reset :
    (p : Parser) (f : Fragment) (first second : ℕ) (rest : List ℕ)
    → p.fragment ≡ some f
    → is_data (first % 16) ≡ true
    → read_head (reset false p) (first ∷ second ∷ rest) ≡ wrong protocol
unfolding read_head
read_head-reset p f first second rest e d =
    let h = first_head first second in
    elim (Bool-cases (check_bits (reset false p) h first second)) [
      | inl bad ↦ rw bad refl
      | inr fine ↦ rw (fine, reset_order p f first second e d) refl
    ]

module _ (valid : List ℕ → Bool) (flate : List ℕ → List ℕ → List ℕ × Bool) where
  -- After Reset in the middle of a message, whose array was kept, the first frame of a new text or binary
  -- message fails the connection as a protocol error, whatever its second byte and what follows are.
  pub reset-next :
      (borrow : Bool) (p : Parser) (f : Fragment) (first second : ℕ) (rest : List ℕ)
      → p.fragment ≡ some f
      → is_data (first % 16) ≡ true
      → (let q = record (reset false p) { buffer = first ∷ second ∷ rest } in
          next valid flate borrow q ≡ (q, failed protocol))
  unfolding next next_of
  reset-next borrow p f first second rest e d =
      let q = record (reset false p) { buffer = first ∷ second ∷ rest } in
      let r = reset false p in
      ap (next_of valid flate borrow q) (
        read_head_same r r.text r.text_checked q.buffer q.buffer
        ∙ read_head-reset p f first second rest e d)

  -- Outside of a message Reset leaves a parser that is ready and in no message.
  pub reset_at_rest :
      (outgrown : Bool) (p : Parser)
      → p.fragment ≡ none
      → IsReady (reset outgrown p) × ((reset outgrown p).fragment ≡ none)
  unfolding reset
  reset_at_rest outgrown p e =
      (record { owns = (refl, refl, refl); at_rest = λ f z. refl; in_text = inl refl }, rw e refl)
