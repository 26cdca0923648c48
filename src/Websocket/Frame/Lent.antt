-- ===== src/Websocket/Frame/Lent.antt =====
-- appendCurrentFrame of go/websocket/frame.go loses nothing and comes to an end.
use event_work_balance.Base.{
  ℕ, zero, suc, ◌<◌, ◌≡◌, inl, inr, refl, ap, ◌∙◌, List, [], ◌++◌, ◌||◌, ◌==◌, leb, some, arith,
  length, take, drop, Bool-cases, append_assoc, append-nil, take-append-drop, length-drop,
}
use event_work_balance.Websocket.Frame.Feed.{
  frame_size, append_current_frame, still_needs, is_known,
}

-- With more fuel than bytes appendCurrentFrame returns the bytes of the buffer and the new ones, cut in
-- two, in order.
pub append_current_frame_keeps :
    (fuel : ℕ) (buffer data_bytes : List ℕ)
    → length data_bytes < fuel
    → (front : List ℕ) × (tail : List ℕ) × (append_current_frame fuel buffer data_bytes
        ≡ some (front, tail))
      × (front ++ tail ≡ buffer ++ data_bytes)
unfolding append_current_frame
append_current_frame_keeps zero buffer data_bytes lt = absurd (omega (arith, lt))
append_current_frame_keeps (suc fuel) buffer data_bytes lt =
    let need = still_needs buffer in
    let cut : (buffer ++ take need data_bytes) ++ drop need data_bytes ≡ buffer ++ data_bytes =
      append_assoc buffer (take need data_bytes) (drop need data_bytes)
      ∙ ap (λ x. buffer ++ x) (take-append-drop need data_bytes) in
    elim (Bool-cases (need == 0 || leb (length data_bytes) need)) [
      | inl all ↦ (buffer ++ data_bytes, [], rw all refl, append-nil (buffer ++ data_bytes))
      | inr more ↦ elim (Bool-cases (is_known (frame_size buffer))) [
        | inl known ↦
            (buffer ++ take need data_bytes, drop need data_bytes, rw (more, known) refl, cut)
        | inr unknown ↦
            let fewer : length (drop need data_bytes) < fuel =
              ground (arith, more, lt, length-drop need data_bytes) in
            let (front, tail, e, whole) =
              append_current_frame_keeps fuel (buffer ++ take need data_bytes)
                (drop need data_bytes) fewer in
            (front, tail, rw (more, unknown) e, whole ∙ cut)
      ]
    ]
