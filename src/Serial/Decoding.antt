-- ===== src/Serial/Decoding.antt =====
-- serial/frame.go: the decoder's answer to every frame, whole or damaged, and its bounds.
use mathlib.Core.Path.{ap, ◌∙◌}
use mathlib.Core.List.{append_assoc}
use go_dav_os.Base.{
  ℕ, ◌+◌, ◌*◌, ◌/◌, ◌%◌, ◌^◌, ◌<◌, ◌≤◌, ◌≡◌, ◌≢◌, refl, true, false, some, List, [], ◌∷◌, ◌++◌,
  Array, slice, length, length-slice, ◌==◌, Bool-cases, if◌then◌else◌, arith, bit_or, All, inl, inr,
}
use go_dav_os.Base.Ints.{pos}
use go_dav_os.Serial.{
  Result, ok, need_more, malformed_frame, encode, Decoder, checksum_high, checksum_low, push, reset,
  valid, kind_max,
}
use go_dav_os.Serial.Checksum.{crc, crc-lt, IsByte, crc_same_byte}
use go_dav_os.Serial.Bytes.{covered, frame_crc, buffer_of, encode-frame_bytes}
use go_dav_os.Serial.RoundTrip.{
  push_all, push_all_step, push_header, push_payload, after_header, write_at, write_at-slice,
  join_bytes,
}

-- A frame that carries the checksum `c`, right or wrong.
abbrev pub frame_with : ℕ → ℕ → List ℕ → ℕ → List ℕ
frame_with k len bs c = b'D' ∷ b'V' ∷ 1 ∷ k ∷ len / 256 ∷ len % 256 ∷ (bs ++ c / 256 ∷ c % 256 ∷ [])

push_checksum_low :
    (d : Decoder) (hi lo c : ℕ)
    → d.state ≡ checksum_low
    → d.received_crc ≡ hi * 2 ^ 8
    → bit_or (hi * 2 ^ 8) lo ≡ c
    → push d lo ≡ (
        if c == d.checksum
        then (record d { received_crc = c }, ok)
        else (reset (record d { received_crc = c }), malformed_frame))
unfolding push
push_checksum_low d hi lo c hs hr e = ground (arith, hs, hr, e)

push_checksum_high :
    (d : Decoder) (hi : ℕ)
    → d.state ≡ checksum_high
    → push d hi ≡ (record d { received_crc = hi * 2 ^ 8; state = checksum_low }, need_more)
unfolding push
push_checksum_high d hi hs = ground (arith, hs)

push_last :
    (d : Decoder) (b : ℕ) (bs : List ℕ) (d' : Decoder) (r : Result)
    → r ≢ need_more
    → push d b ≡ (d', r)
    → push_all d (b ∷ bs) ≡ (d', r, bs)
unfolding push_all
push_last d b bs d' r ne e =
    ground (arith, ne, ap (λ (p : Decoder × Result). p.0) e, ap (λ (p : Decoder × Result). p.1) e)

-- The answer to a frame's last two bytes.
abbrev answer : Decoder → ℕ → List ℕ → Decoder × Result × List ℕ
answer d c rest =
    let e = record d { received_crc = c; state = checksum_low } in
    if c == d.checksum then (e, ok, rest) else (reset e, malformed_frame, rest)

push_trailer :
    (d : Decoder) (c : ℕ) (rest : List ℕ)
    → d.state ≡ checksum_high
    → c < 2 ^ 16
    → push_all d (c / 256 ∷ c % 256 ∷ rest) ≡ answer d c rest
push_trailer d c rest hs hc =
    let joined : bit_or (c / 256 * 2 ^ 8) (c % 256) ≡ c =
      join_bytes (c / 256) (c % 256) (omega arith) (omega arith) ∙ omega arith in
    let d' = record d { received_crc = c / 256 * 2 ^ 8; state = checksum_low } in
    let e = push_checksum_low d' (c / 256) (c % 256) c refl refl joined in
    push_all_step d d' (c / 256) (c % 256 ∷ rest) (push_checksum_high d (c / 256) hs)
    ∙ elim (Bool-cases (c == d.checksum)) [
      | inl right ↦ push_last d' (c % 256) rest _ ok (λ p. cc) (rw right at e) ∙ rw right
      | inr wrong ↦
          push_last d' (c % 256) rest _ malformed_frame (λ p. cc) (rw wrong at e) ∙ rw wrong
    ]

answer_right :
    (d : Decoder) (c : ℕ) (rest : List ℕ)
    → c ≡ d.checksum
    → answer d c rest ≡ (record d { received_crc = c; state = checksum_low }, ok, rest)
answer_right d c rest e = ground arith

abbrev read_frame : Decoder → ℕ → ℕ → List ℕ → Decoder
read_frame d k len bs = record (after_header d k len) {
  frame = record { kind = k; length = len; payload = write_at d.frame.payload 0 bs };
  state = checksum_high;
  checksum = frame_crc k len bs;
  payload_read = len;
}

-- The decoder reads header and payload, and comes to wait for the checksum.
push_body :
    (d : Decoder) (k len : ℕ) (bs rest : List ℕ)
    → valid k ≡ true
    → len ≤ kind_max k
    → length bs ≡ len
    → push_all (reset d) (b'D' ∷ b'V' ∷ 1 ∷ k ∷ len / 256 ∷ len % 256 ∷ (bs ++ rest))
      ≡ push_all (read_frame d k len bs) rest
unfolding write_at
push_body d k len [] rest hv hl e =
    let z : len ≡ 0 = omega arith in push_header d k len rest hv hl ∙ rw z
push_body d k len (b ∷ bs) rest hv hl e =
    let more : (len == 0) ≡ false = ground arith in
    push_header d k len (b ∷ bs ++ rest) hv hl
    ∙ push_payload (b ∷ bs) (after_header d k len) rest (rw more) (omega (arith, e)) (omega arith)

-- The decoder's answer to a frame of a valid kind whose payload fits: OK exactly if the checksum is
-- right, and malformed otherwise. The bytes behind the frame are left.
pub push_all-frame_with :
    (d : Decoder) (k len : ℕ) (bs rest : List ℕ) (c : ℕ)
    → valid k ≡ true
    → len ≤ kind_max k
    → length bs ≡ len
    → c < 2 ^ 16
    → let (d', r, left) = push_all (reset d) (frame_with k len bs c ++ rest) in
      (r ≡ (if c == frame_crc k len bs then ok else malformed_frame)) × (left ≡ rest)
push_all-frame_with d k len bs rest c hv hl e hc =
    let eq =
      ap (λ l. push_all (reset d) (b'D' ∷ b'V' ∷ 1 ∷ k ∷ len / 256 ∷ len % 256 ∷ l))
        (append_assoc bs (c / 256 ∷ c % 256 ∷ []) rest)
      ∙ push_body d k len bs (c / 256 ∷ c % 256 ∷ rest) hv hl e
      ∙ push_trailer (read_frame d k len bs) c rest refl hc in
    rw eq (elim (Bool-cases (c == frame_crc k len bs)) [
      | inl right ↦ rw right (refl, refl)
      | inr wrong ↦ rw wrong (refl, refl)
    ])

-- What `Encode` writes, `Push` reads back: on its last byte the decoder answers OK with the kind, the
-- length and the payload, and it takes no byte that follows.
pub push_all-encode :
    (d : Decoder) (k len : ℕ) (src output : Array ℕ) (rest : List ℕ)
    → valid k ≡ true
    → len ≤ kind_max k
    → let (out, n, _) = encode k (some src) (pos len) (some output) in
      let (d', r, left) = push_all (reset d) (slice (buffer_of out) 0 n ++ rest) in
      (r ≡ ok)
      × (left ≡ rest)
      × (d'.frame.kind ≡ k)
      × (d'.frame.length ≡ len)
      × ((i : ℕ) → i < len → d'.frame.payload i ≡ src i)
push_all-encode d k len src output rest hv hl =
    let bs = slice src 0 len in
    let c = frame_crc k len bs in
    let hc : c < 2 ^ 16 = crc-lt _ bs (crc-lt 0xffff (covered k len) (omega arith)) in
    let (_, _, bytes, _) = encode-frame_bytes k len src output hv hl in
    let eq =
      ap (λ l. push_all (reset d) (l ++ rest)) bytes
      ∙ ap (λ l. push_all (reset d) (b'D' ∷ b'V' ∷ 1 ∷ k ∷ len / 256 ∷ len % 256 ∷ l))
          (append_assoc bs (c / 256 ∷ c % 256 ∷ []) rest)
      ∙ push_body d k len bs (c / 256 ∷ c % 256 ∷ rest) hv hl (length-slice src 0 len)
      ∙ push_trailer (read_frame d k len bs) c rest refl hc
      ∙ answer_right (read_frame d k len bs) c rest refl in
    rw eq (refl, refl, refl, refl, λ i lt. payload i lt)
  where
    payload : (i : ℕ) → i < len → write_at d.frame.payload 0 (slice src 0 len) i ≡ src i
    payload i lt =
        let e : 0 + i ≡ i = omega arith in rw e at (write_at-slice src d.frame.payload 0 0 len i lt)

-- A frame whose payload had one byte changed on the way is never taken for a good one.
pub push_all_damaged :
    (d : Decoder) (k len : ℕ) (xs ys rest : List ℕ) (a b : ℕ)
    → valid k ≡ true
    → len ≤ kind_max k
    → length (xs ++ a ∷ ys) ≡ len
    → length (xs ++ b ∷ ys) ≡ len
    → IsByte a
    → IsByte b
    → All IsByte ys
    → a ≢ b
    → (push_all
        (reset d)
        (frame_with k len (xs ++ b ∷ ys) (frame_crc k len (xs ++ a ∷ ys)) ++ rest)).1
      ≡ malformed_frame
push_all_damaged d k len xs ys rest a b hv hl ea eb ha hb hys ne =
    let c = frame_crc k len (xs ++ a ∷ ys) in
    let h0 : crc 0xffff (covered k len) < 2 ^ 16 = crc-lt 0xffff (covered k len) (omega arith) in
    let hc : c < 2 ^ 16 = crc-lt _ (xs ++ a ∷ ys) h0 in
    let wrong : (c == frame_crc k len (xs ++ b ∷ ys)) ≡ false =
      ground (arith, crc_same_byte (crc 0xffff (covered k len)) xs ys a b h0 ha hb hys) in
    (push_all-frame_with d k len (xs ++ b ∷ ys) rest c hv hl eb hc).0 ∙ rw wrong
