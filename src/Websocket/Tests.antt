-- ===== src/Websocket/Tests.antt =====
-- go/websocket on given bytes.
use event_work_balance.Base.{
  ℕ, ◌≡◌, ◌↔◌, inl, refl, ap, ◌∙◌, List, [], ◌∷◌, Bool, true, false, Option, none, some, arith,
}
use event_work_balance.Websocket.Utf8.{Validator, fresh, steps, write}
use event_work_balance.Websocket.Utf8.WellFormed.{IsUtf8, steps_iff_IsUtf8}
use event_work_balance.Websocket.Utf8.CodePoints.{IsText, steps_iff_IsText}
use event_work_balance.Websocket.Utf8.Bulk.{seen, write-steps}
use event_work_balance.Websocket.Frame.{
  Parser, Error, protocol, invalid_payload, Event, Head, new_server_frame_parser, read_head,
  is_text,
}
use event_work_balance.Websocket.Frame.Next.{progress, failed, next}
use event_work_balance.Websocket.Frame.Heads.{Grows, read_head-Grows}
use event_work_balance.Websocket.Frame.Feed.{feed, frame_size, reset}
use event_work_balance.Websocket.Frame.Again.{IsReady}
use event_work_balance.Websocket.Frame.Reads.{good}
use event_work_balance.Websocket.Frame.Stable.{plain}
use event_work_balance.Websocket.Frame.Mores.{more}
use event_work_balance.Websocket.Frame.Chunked.{Runs}
use event_work_balance.Websocket.Frame.Feeds.{feed-Runs}
use event_work_balance.Websocket.Frame.Parts.{feed-append, feed-append_fault}
use event_work_balance.Websocket.Frame.Sent.{marshal_frame-next, left_with}
use event_work_balance.Websocket.Frame.Marshal.{marshal_frame}
use event_work_balance.Websocket.Frame.Sizes.{read_head-frame_size}
use event_work_balance.Websocket.Frame.Resets.{reset-next}

-- utf8.Valid as the whole text read byte by byte, and a stream that never inflates.
abbrev valid : List ℕ → Bool
unfolding steps
valid p = good (steps fresh p)

abbrev flate : List ℕ → List ℕ → List ℕ × Bool
flate bytes dict = ([], false)

read_whole : (o : Option Validator) → good o ≡ true → (w : Validator) × (o ≡ some w) × (w.need ≡ 0)
read_whole none e = absurd cc
read_whole (some w) e = (w, refl, ground (arith, e))

documented : (p : List ℕ) → (valid p ≡ true) ↔ IsUtf8 p
unfolding valid
documented p = (
  (λ e. (steps_iff_IsUtf8 fresh p refl).0 (read_whole (steps fresh p) e)),
  λ u. let (w, s, z) = (steps_iff_IsUtf8 fresh p refl).1 u in ap good s ∙ ground (arith, z),
)

abbrev client : Parser
unfolding new_server_frame_parser
client = new_server_frame_parser 100

-- The head of a text frame of three bytes, and the first of them.
abbrev half_read : Parser
unfolding client
half_read = record client { buffer = 129 ∷ 3 ∷ 104 ∷ []; text_checked = 1 }

client_IsReady : IsReady client
unfolding client
client_IsReady = record { owns = (refl, refl, refl); at_rest = λ f z. refl; in_text = inl refl }

client_waits : feed valid flate 10 client (129 ∷ 3 ∷ 104 ∷ []) ≡ some ([], none, half_read)
unfolding feed valid half_read read_head is_text write
client_waits = refl

feed-append_example :
    (fs : List Event) × (r : Option Error) × (s : Parser) × (t : Parser) × (feed valid flate 10
        half_read
        (105 ∷ 33 ∷ 137 ∷ 0 ∷ [])
      ≡ some (fs, r, s))
    × (feed valid flate 10 client (129 ∷ 3 ∷ 104 ∷ 105 ∷ 33 ∷ 137 ∷ 0 ∷ []) ≡ some (fs, r, t))
    × (r ≡ none → plain t ≡ plain s)
unfolding half_read
feed-append_example =
    feed-append valid flate documented 10 10 client half_read (129 ∷ 3 ∷ 104 ∷ [])
      (105 ∷ 33 ∷ 137 ∷ 0 ∷ []) [] client_IsReady (omega arith) (omega arith) client_waits

-- The text, and the ping behind it.
client_reads :
    feed valid flate 10 client (129 ∷ 3 ∷ 104 ∷ 105 ∷ 33 ∷ 137 ∷ 0 ∷ [])
    ≡ some (
      record { opcode = 1; payload = 104 ∷ 105 ∷ 33 ∷ [] }
          ∷ record { opcode = 9; payload = [] }
          ∷ [],
      none,
      client,
    )
unfolding feed valid client read_head is_text write
client_reads = refl

client_fails :
    feed valid flate 10 client (129 ∷ 3 ∷ 104 ∷ 255 ∷ []) ≡ some ([], some invalid_payload, client)
unfolding feed valid client read_head is_text write
client_fails = refl

feed-append_fault_example :
    (t : Parser) × (feed valid flate 10 client (129 ∷ 3 ∷ 104 ∷ 255 ∷ 33 ∷ [])
      ≡ some ([], some invalid_payload, t))
unfolding client
feed-append_fault_example =
    feed-append_fault valid flate documented 10 client client (129 ∷ 3 ∷ 104 ∷ 255 ∷ []) (33 ∷ [])
      [] invalid_payload client_IsReady (omega arith) client_fails

feed-Runs_example :
    (es : List Event) × (r : Option Error) × (q : Parser) × (feed valid flate 10 client
        (129 ∷ 3 ∷ 104 ∷ [])
      ≡ some (es, r, q))
    × Runs valid flate (more client (129 ∷ 3 ∷ 104 ∷ [])) es r q
    × (r ≡ none → IsReady q)
unfolding client
feed-Runs_example =
    feed-Runs valid flate documented 10 client (129 ∷ 3 ∷ 104 ∷ []) client_IsReady (omega arith)

-- A text of two bytes, and one byte of a ping.
abbrev with_text : Parser
with_text = record client { buffer = 129 ∷ 2 ∷ 104 ∷ 105 ∷ 137 ∷ [] }

marshal_frame-next_example : next valid flate false with_text ≡ (
  left_with with_text 1 (137 ∷ []),
  progress (some (record { opcode = 1; payload = 104 ∷ 105 ∷ [] })),
)
unfolding client marshal_frame valid
marshal_frame-next_example =
    marshal_frame-next valid flate with_text 1 (104 ∷ 105 ∷ []) (129 ∷ 2 ∷ 104 ∷ 105 ∷ [])
      (137 ∷ []) refl refl refl refl (omega arith) (omega arith) (λ e. refl)
      (λ e. absurd (omega (arith, e))) refl refl

abbrev text_head : Head
text_head = record {
  fin = true;
  opcode = 1;
  masked = false;
  compressed = false;
  payload_len = 2;
  offset = 2;
  mask = [];
}

read_head-frame_size_example : frame_size (129 ∷ 2 ∷ []) ≡ some 4
unfolding client read_head
read_head-frame_size_example =
    read_head-frame_size client (129 ∷ 2 ∷ []) text_head refl (omega arith)

read_head-Grows_example :
    Grows (read_head client (129 ∷ 2 ∷ [])) (read_head client (129 ∷ 2 ∷ 104 ∷ []))
read_head-Grows_example = read_head-Grows client (129 ∷ 2 ∷ []) (104 ∷ [])

abbrev in_message : Parser
in_message = record client {
  fragment = some (record { opcode = 1; compressed = false; data_bytes = 104 ∷ [] });
}

reset-next_example :
    next valid flate false (record (reset false in_message) { buffer = 129 ∷ 2 ∷ 104 ∷ [] })
    ≡ (record (reset false in_message) { buffer = 129 ∷ 2 ∷ 104 ∷ [] }, failed protocol)
reset-next_example =
    reset-next valid flate false in_message
      (record { opcode = 1; compressed = false; data_bytes = 104 ∷ [] }) 129 2 (104 ∷ []) refl refl

steps_iff_IsText_example :
    ((w : Validator) × (steps fresh (195 ∷ 169 ∷ []) ≡ some w) × (w.need ≡ 0))
    ↔ IsText (195 ∷ 169 ∷ [])
steps_iff_IsText_example = steps_iff_IsText fresh (195 ∷ 169 ∷ []) refl

write-steps_example :
    seen (write valid fresh (104 ∷ 195 ∷ [])) ≡ seen (steps fresh (104 ∷ 195 ∷ []))
write-steps_example = write-steps valid documented fresh (104 ∷ 195 ∷ [])
