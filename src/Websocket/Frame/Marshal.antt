-- ===== src/Websocket/Frame/Marshal.antt =====
-- Writing a frame of go/websocket/frame.go, and that a client's parser reads it back.
use event_work_balance.Base.{
  ℕ, zero, suc, ◌+◌, ◌*◌, ◌/◌, ◌%◌, ◌^◌, ◌≤◌, ◌<◌, ◌≡◌, inl, inr, refl, ap, ◌∙◌, List, [], ◌∷◌,
  ◌++◌, Bool, true, false, ◌&&◌, ◌||◌, not, ◌==◌, ltb, leb, Option, none, some, arith,
  if◌then◌else◌, length, Bool-cases, length-append,
}
use native.Mathlib.Nat.{pow-succ'}
use event_work_balance.Websocket.Frame.{
  Parser, Head, Got, wrong, got, after, protocol, big_endian, bit, read_head, check_bits,
  check_order, check_size, read_length, read_sized, read_mask, first_head,
}

abbrev pub is_sent : ℕ → Bool
is_sent opcode = opcode == 1 || opcode == 2 || opcode == 8 || opcode == 9 || opcode == 10

-- `n` in `k` bytes, the highest first, as binary.BigEndian puts it.
abbrev pub put_big_endian : ℕ → ℕ → List ℕ
put_big_endian zero n = []
put_big_endian (suc k) n = put_big_endian k (n / 256) ++ (n % 256 ∷ [])

abbrev pub length_bytes : ℕ → List ℕ
length_bytes n =
    if ltb n 126
    then n ∷ []
    else if leb n 65535
    then 126 ∷ put_big_endian 2 n
    else 127 ∷ put_big_endian 8 n

-- The head of an unmasked frame: the opcodes are below 16, so that 0x80 | opcode is a sum.
unfoldable pub frame_header : ℕ → ℕ → Option (List ℕ)
frame_header opcode payload_len =
    if not (is_sent opcode)
    then none
    else if leb 8 opcode && ltb 125 payload_len
    then none
    else some ((128 + opcode) ∷ length_bytes payload_len)

unfoldable pub marshal_frame : ℕ → List ℕ → Option (List ℕ)
marshal_frame opcode payload =
    if not (is_sent opcode)
    then none
    else if leb 8 opcode && ltb 125 (length payload)
    then none
    else some (((128 + opcode) ∷ length_bytes (length payload)) ++ payload)

big_endian-snoc :
    (xs : List ℕ) (b acc : ℕ) → big_endian (xs ++ (b ∷ [])) acc ≡ big_endian xs acc * 256 + b
big_endian-snoc [] b acc = refl
big_endian-snoc (x ∷ xs) b acc = big_endian-snoc xs b (acc * 256 + x)

-- What is put is read back.
big_endian-put : (k n : ℕ) → n < 256 ^ k → big_endian (put_big_endian k n) 0 ≡ n
big_endian-put zero n h = omega (arith, h)
big_endian-put (suc k) n h =
    let high = big_endian-put k (n / 256) (omega (arith, pow-succ' 256 k, h)) in
    big_endian-snoc (put_big_endian k (n / 256)) (n % 256) 0 ∙ omega (arith, high)

length-put : (k n : ℕ) → length (put_big_endian k n) ≡ k
length-put zero n = refl
length-put (suc k) n =
    length-append (put_big_endian k (n / 256)) (n % 256 ∷ [])
    ∙ omega (arith, length-put k (n / 256))

abbrev pub plain_head : ℕ → ℕ → ℕ → Head
plain_head opcode n offset = record {
  fin = true;
  opcode = opcode;
  masked = false;
  compressed = false;
  payload_len = n;
  offset = offset;
  mask = [];
}

first_head-sent :
    (opcode second : ℕ)
    → is_sent opcode ≡ true
    → second < 128
    → first_head (128 + opcode) second ≡ plain_head opcode 0 2
first_head-sent opcode second s small =
    let low : (128 + opcode) % 16 ≡ opcode = ground (arith, s) in
    let high : bit 7 (128 + opcode) ≡ true = ground (arith, s) in
    let plain : bit 6 (128 + opcode) ≡ false = ground (arith, s) in
    let unmasked : bit 7 second ≡ false = ground (arith, small) in
    rw (low, high, plain, unmasked) refl

check_bits-sent :
    (p : Parser) (opcode second : ℕ)
    → is_sent opcode ≡ true
    → p.from_server ≡ true
    → check_bits p (plain_head opcode 0 2) (128 + opcode) second ≡ false
unfolding check_bits
check_bits-sent p opcode second s server = ground (arith, s, server)

check_order-sent :
    (p : Parser) (opcode n second : ℕ)
    → is_sent opcode ≡ true
    → p.fragment ≡ none
    → (leb 8 opcode && ltb 125 (second % 128)) ≡ false
    → check_order p (plain_head opcode 0 2) second ≡ false
unfolding check_order
check_order-sent p opcode n second s f c = rw f (ground (arith, s, c))

check_size-sent :
    (p : Parser) (opcode n : ℕ)
    → (leb 8 opcode && ltb 125 n) ≡ false
    → n ≤ p.max_message_bytes
    → p.fragment ≡ none
    → check_size p (plain_head opcode 0 2) n ≡ none
unfolding check_size
check_size-sent p opcode n c le f = rw f (ground (arith, c, le))

read_sized-sent :
    (p : Parser) (opcode n offset : ℕ) (b : List ℕ)
    → (leb 8 opcode && ltb 125 n) ≡ false
    → n ≤ p.max_message_bytes
    → p.fragment ≡ none
    → read_sized p (plain_head opcode 0 2) b (n, offset) ≡ got (plain_head opcode n offset)
unfolding read_sized read_mask
read_sized-sent p opcode n offset b c le f = rw (read_sized, check_size-sent p opcode n c le f) refl

abbrev head_of : Parser → Head → ℕ → ℕ → List ℕ → Got Head
head_of p h first second buffer =
    if check_bits p h first second
    then wrong protocol
    else if check_order p h second
    then wrong protocol
    else after (read_length (second % 128) buffer) (read_sized p h buffer)

read_head-two :
    (p : Parser) (first second : ℕ) (rest : List ℕ)
    → read_head p (first ∷ second ∷ rest)
      ≡ head_of p (first_head first second) first second (first ∷ second ∷ rest)
unfolding read_head check_bits check_order read_length
read_head-two p first second rest = refl

read_head-sent :
    (p : Parser) (opcode n offset second : ℕ) (rest : List ℕ)
    → is_sent opcode ≡ true
    → p.from_server ≡ true
    → p.fragment ≡ none
    → n ≤ p.max_message_bytes
    → (leb 8 opcode && ltb 125 n) ≡ false
    → (leb 8 opcode && ltb 125 second) ≡ false
    → second < 128
    → read_length second ((128 + opcode) ∷ second ∷ rest) ≡ got (n, offset)
    → read_head p ((128 + opcode) ∷ second ∷ rest) ≡ got (plain_head opcode n offset)
read_head-sent p opcode n offset second rest s server f le c c' small e =
    let same : second % 128 ≡ second = omega (arith, small) in
    let b = (128 + opcode) ∷ second ∷ rest in
    read_head-two p (128 + opcode) second rest
    ∙ ap (λ h. head_of p h (128 + opcode) second b) (first_head-sent opcode second s small)
    ∙ rw (check_bits-sent p opcode second s server) (
        rw (check_order-sent p opcode n second s f (rw same c'), same, e)
          (read_sized-sent p opcode n offset b c le f))

-- The head that is written for a frame is the head that is read.
pub read_head-written :
    (p : Parser) (opcode n : ℕ) (xs : List ℕ)
    → is_sent opcode ≡ true
    → p.from_server ≡ true
    → p.fragment ≡ none
    → n ≤ p.max_message_bytes
    → n < 2 ^ 63
    → (leb 8 opcode && ltb 125 n) ≡ false
    → read_head p (((128 + opcode) ∷ length_bytes n) ++ xs)
      ≡ got (plain_head opcode n (1 + length (length_bytes n)))
unfolding read_length
read_head-written p opcode n xs s server f le lt c = elim (Bool-cases (ltb n 126)) [
  | inl short_one ↦ rw short_one (
      read_head-sent p opcode n 2 n xs s server f le c c (ground (arith, short_one))
        (ground (arith, short_one)))
  | inr long ↦
      let data_frame : leb 8 opcode ≡ false = ground (arith, c, long) in
      elim (Bool-cases (leb n 65535)) [
        | inl two ↦
            rw (long, two)
              (read_head-sent p opcode n 4 126 (put_big_endian 2 n ++ xs) s server f le c
                (rw data_frame refl) (omega arith)
                (let value : big_endian (put_big_endian 2 n) 0 ≡ n =
                    big_endian-put 2 n (ground (arith, two)) in
                  let large : ltb n 126 ≡ false = long in
                  let enough : ltb (suc (suc (suc (suc (length xs))))) 4 ≡ false = ground arith in
                  rw (enough, value, large) refl))
        | inr eight ↦
            rw (long, eight)
              (read_head-sent p opcode n 10 127 (put_big_endian 8 n ++ xs) s server f le c
                (rw data_frame refl) (omega arith)
                (let value : big_endian (put_big_endian 8 n) 0 ≡ n =
                    big_endian-put 8 n (omega (arith, lt)) in
                  let enough : ltb
                        (suc (suc (suc (suc (suc (suc (suc (suc (suc (suc (length xs))))))))))) 10
                      ≡ false =
                    ground arith in
                  let large : (ltb n 65536 || leb (2 ^ 63) n) ≡ false = ground (arith, eight, lt) in
                  rw (enough, value, large) refl))
      ]
]
