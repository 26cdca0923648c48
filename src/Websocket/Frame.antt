-- ===== src/Websocket/Frame.antt =====
-- The parser of go/websocket/frame.go. The arrays that it pools and keeps for reuse (owned, inflated)
-- are left out: they hold no bytes of their own. What it unmasks in place it also drops before it
-- reads again, so that a buffer here holds the bytes as they came.
pub mod Next
pub mod Heads
pub mod Reads
pub mod Stable
pub mod Texts
pub mod Again
pub mod Ready
mod Lent
pub mod Sizes
pub mod Resets
pub mod Sent
pub mod Marshal
pub mod Parts
pub mod Feeds
pub mod Chunked
pub mod Feed
pub mod Runs
pub mod Answers
pub mod Chunks
pub mod Mores
pub mod Plain
pub mod Splits
use event_work_balance.Base.{
  ℕ, zero, suc, ◌+◌, ◌-◌, ◌*◌, ◌/◌, ◌%◌, ◌^◌, List, [], ◌∷◌, ◌++◌, Bool, true, false, ◌&&◌, ◌||◌,
  not, ◌==◌, ltb, leb, Option, none, some, if◌then◌else◌, length, take, drop, get_elem?, bit_xor,
}
use event_work_balance.Websocket.Utf8.{Validator, fresh, write, complete}

pub data Error : Type 0 where
  protocol : Error
  message_too_big : Error
  invalid_payload : Error

pub record Event : Type 0 where
  pub opcode : ℕ
  pub payload : List ℕ

pub record Fragment : Type 0 where
  pub opcode : ℕ
  pub compressed : Bool
  pub data_bytes : List ℕ

pub record Parser : Type 0 where
  pub max_message_bytes : ℕ
  pub from_server : Bool
  pub buffer : List ℕ
  pub borrowed_tail : List ℕ
  pub fragment : Option Fragment
  pub text : Validator
  pub text_checked : ℕ
  pub pending_consume : ℕ
  pub borrowed_buffer : Bool
  pub deflate : Bool
  pub context_takeover : Bool
  pub window : List ℕ

unfoldable pub new_parser : ℕ → Parser
new_parser n = record {
  max_message_bytes = if n == 0 then 16 * 2 ^ 20 else n;
  from_server = false;
  buffer = [];
  borrowed_tail = [];
  fragment = none;
  text = fresh;
  text_checked = 0;
  pending_consume = 0;
  borrowed_buffer = false;
  deflate = false;
  context_takeover = false;
  window = [];
}

unfoldable pub new_server_frame_parser : ℕ → Parser
unfolding new_parser
new_server_frame_parser n = record (new_parser n) { from_server = true }

-- What is read of a frame's head: too little of it, a fault, or what was looked for.
pub data Got {ℓ} (A : Type ℓ) : Type ℓ where
  short : Got A
  wrong : Error → Got A
  got : A → Got A

abbrev pub after {ℓ₁ ℓ₂} : {A : Type ℓ₁} {B : Type ℓ₂} → Got A → (A → Got B) → Got B
after short k = short
after (wrong e) k = wrong e
after (got a) k = k a

pub record Head : Type 0 where
  pub fin : Bool
  pub opcode : ℕ
  pub masked : Bool
  pub compressed : Bool
  pub payload_len : ℕ
  pub offset : ℕ
  pub mask : List ℕ

abbrev pub bit : ℕ → ℕ → Bool
bit n b = b / 2 ^ n % 2 == 1

abbrev pub is_control : ℕ → Bool
is_control opcode = leb 8 opcode

abbrev pub is_data : ℕ → Bool
is_data opcode = opcode == 1 || opcode == 2

abbrev pub same : Bool → Bool → Bool
same true b = b
same false b = not b

abbrev pub is_some {ℓ} : {A : Type ℓ} → Option A → Bool
is_some none = false
is_some (some a) = true

-- The bits of the first two bytes, and whether an opcode may come now.
unfoldable pub check_bits : Parser → Head → ℕ → ℕ → Bool
check_bits p h first second =
    not (first / 16 % 4 == 0)
    || same h.masked p.from_server
    || (h.compressed && (not p.deflate || not (is_data h.opcode)))

unfoldable pub check_order : Parser → Head → ℕ → Bool
check_order p h second =
    if is_control h.opcode && (not h.fin || ltb 125 (second % 128))
    then true
    else if h.opcode == 0
    then not (is_some p.fragment)
    else if is_data h.opcode
    then is_some p.fragment
    else not (h.opcode == 8 || h.opcode == 9 || h.opcode == 10)

-- A big-endian number.
abbrev pub big_endian : List ℕ → ℕ → ℕ
big_endian [] n = n
big_endian (b ∷ bs) n = big_endian bs (n * 256 + b)

-- The payload's length and where it ends in the head.
unfoldable pub read_length : ℕ → List ℕ → Got (ℕ × ℕ)
read_length len buffer =
    if len == 126
    then (if ltb (length buffer) 4
        then short
        else (let n = big_endian (take 2 (drop 2 buffer)) 0 in
            if ltb n 126 then wrong protocol else got (n, 4)))
    else if len == 127
    then (if ltb (length buffer) 10
        then short
        else (let n = big_endian (take 8 (drop 2 buffer)) 0 in
            if ltb n 65536 || leb (2 ^ 63) n then wrong protocol else got (n, 10)))
    else got (len, 2)

abbrev pub held : Option Fragment → ℕ
held none = 0
held (some f) = length f.data_bytes

unfoldable pub check_size : Parser → Head → ℕ → Option Error
check_size p h len =
    if is_control h.opcode && ltb 125 len
    then some protocol
    else if not (is_control h.opcode)
        && (ltb p.max_message_bytes len || ltb (p.max_message_bytes - len) (held p.fragment))
    then some message_too_big
    else none

unfoldable pub read_mask : Head → List ℕ → Got Head
read_mask h buffer =
    if not h.masked
    then got h
    else if ltb (length buffer) (h.offset + 4)
    then short
    else got (record h { mask = take 4 (drop h.offset buffer); offset = h.offset + 4 })

abbrev pub first_head : ℕ → ℕ → Head
first_head first second = record {
  fin = bit 7 first;
  opcode = first % 16;
  masked = bit 7 second;
  compressed = bit 6 first;
  payload_len = 0;
  offset = 2;
  mask = [];
}

unfoldable pub read_sized : Parser → Head → List ℕ → ℕ × ℕ → Got Head
unfolding check_size read_mask
read_sized p h buffer (len, offset) = elim (check_size p h len) [
  | some e ↦ wrong e
  | none ↦ read_mask (record h { payload_len = len; offset = offset }) buffer
]

-- The head of the frame at the front of `buffer`.
unfoldable pub read_head : Parser → List ℕ → Got Head
unfolding check_bits check_order read_length read_sized
read_head p [] = short
read_head p (first ∷ []) = short
read_head p (first ∷ second ∷ rest) =
    let h = first_head first second in
    let buffer = first ∷ second ∷ rest in
    if check_bits p h first second
    then wrong protocol
    else if check_order p h second
    then wrong protocol
    else after (read_length (second % 128) buffer) (read_sized p h buffer)

abbrev pub mask_byte : Option ℕ → ℕ → ℕ
mask_byte none b = b
mask_byte (some m) b = bit_xor b m

-- applyMask, `src[i] ^ mask[i&3]` from position `i` on; the source does eight bytes at a time while
-- it can, with the mask twice.
abbrev pub masked_from : List ℕ → ℕ → List ℕ → List ℕ
masked_from mask i [] = []
masked_from mask i (b ∷ bs) = mask_byte (get_elem? mask (i % 4)) b ∷ masked_from mask (i + 1) bs

abbrev pub unmask_by : Bool → List ℕ → List ℕ → List ℕ
unmask_by true mask payload = masked_from mask 0 payload
unmask_by false mask payload = payload

-- `payload` as it was before it was masked; an unmasked frame has no mask.
abbrev pub unmask : Head → List ℕ → List ℕ
unmask h payload = unmask_by h.masked h.mask payload

-- Whether the payload is text to be checked as it comes.
unfoldable pub is_text : Parser → Head → Bool
is_text p h = (h.opcode == 1 && not h.compressed) || elim p.fragment [
  | none ↦ false
  | some f ↦ h.opcode == 0 && f.opcode == 1 && not f.compressed
]
