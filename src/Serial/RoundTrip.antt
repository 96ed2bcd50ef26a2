-- ===== src/Serial/RoundTrip.antt =====
-- serial/frame.go: `Push` reads back what `Encode` wrote.
use mathlib.Core.Path.{ap, ◌∙◌}
use go_dav_os.Base.{
  ℕ, zero, suc, ◌+◌, ◌*◌, ◌/◌, ◌%◌, ◌^◌, ◌<◌, ◌≤◌, ◌≡◌, refl, Bool, true, false, List, [], ◌∷◌,
  ◌++◌, Array, update, slice, length, ltb, ◌==◌, ==_iff, if◌then◌else◌, arith, bit_or,
}
use go_dav_os.Base.Loops.{all_below, all_below_sound}
use go_dav_os.Serial.{
  Result, need_more, Decoder, DecodeState, kind, length_high, length_low, payload, checksum_high,
  push, reset, advance, update_checksum, valid, kind_max,
}
use go_dav_os.Serial.Checksum.{crc}
use go_dav_os.Serial.Bytes.{covered}

-- The reading loop of serial/transport.go over bytes at hand: `Push` until it wants no more. The
-- decoder, the last result and the bytes that are left.
unfoldable pub push_all : Decoder → List ℕ → Decoder × Result × List ℕ
push_all d [] = (d, need_more, [])
push_all d (b ∷ bs) =
    let (d', r) = push d b in elim r [ need_more ↦ push_all d' bs | other ↦ (d', other, bs) ]

or_block : ℕ → ℕ → Bool
or_block hi lo = bit_or (hi * 2 ^ 8) lo == hi * 256 + lo

or_table : all_below 256 (λ hi. all_below 256 (or_block hi)) ≡ true
unfolding all_below or_block
or_table = refl

-- Two bytes joined by `|` are a number in base 256.
pub join_bytes : (hi lo : ℕ) → hi < 256 → lo < 256 → bit_or (hi * 2 ^ 8) lo ≡ hi * 256 + lo
unfolding or_block
join_bytes hi lo hh hl =
    let row = all_below_sound 256 (λ x. all_below 256 (or_block x)) or_table hi hh in
    (==_iff _ _).0 (all_below_sound 256 (or_block hi) row lo hl)

-- The payload's buffer with the bytes written from index `i` on.
unfoldable pub write_at : Array ℕ → ℕ → List ℕ → Array ℕ
write_at a i [] = a
write_at a i (b ∷ bs) = write_at (update a i b) (i + 1) bs

write_at_below : (bs : List ℕ) (a : Array ℕ) (i j : ℕ) → j < i → write_at a i bs j ≡ a j
unfolding write_at
write_at_below [] a i j h = refl
write_at_below (b ∷ bs) a i j h = ground (arith, write_at_below bs (update a i b) (i + 1) j)

pub write_at-slice :
    (src a : Array ℕ) (i s n j : ℕ) → j < n → write_at a i (slice src s n) (i + j) ≡ src (s + j)
unfolding write_at
write_at-slice src a i s zero j h = absurd (omega arith)
write_at-slice src a i s (suc n) zero h =
    let e : i + 0 ≡ i = omega arith in
    let f : s + 0 ≡ s = omega arith in
    rw (e, f) (ground (arith, write_at_below (slice src (s + 1) n) (update a i (src s)) (i + 1) i))
write_at-slice src a i s (suc n) (suc j) h =
    let e : i + suc j ≡ i + 1 + j = omega arith in
    let f : s + suc j ≡ s + 1 + j = omega arith in
    rw (e, f) (write_at-slice src (update a i (src s)) (i + 1) (s + 1) n j (omega arith))

-- The decoder once the header has been read.
abbrev pub after_header : Decoder → ℕ → ℕ → Decoder
after_header d k len = record d {
  frame = record d.frame { kind = k; length = len };
  state = (if len == 0 then checksum_high else payload);
  checksum = crc 0xffff (covered k len);
  received_crc = 0;
  payload_read = 0;
}

pub push_all_step :
    (d d' : Decoder) (b : ℕ) (bs : List ℕ)
    → push d b ≡ (d', need_more)
    → push_all d (b ∷ bs) ≡ push_all d' bs
unfolding push_all
push_all_step d d' b bs e =
    let state : (push d b).0 ≡ d' = ap (λ r. r.0) e in
    let more : (push d b).1 ≡ need_more = ap (λ r. r.1) e in rw (more, push_all) (rw state)

push_kind :
    (d : Decoder) (k : ℕ)
    → d.state ≡ kind
    → valid k ≡ true
    → push d k
      ≡ (advance (record d { frame = record d.frame { kind = k } }) k length_high, need_more)
unfolding push
push_kind d k hs hv = ground (arith, hs, hv)

push_length_low :
    (d : Decoder) (k lo n : ℕ)
    → d.state ≡ length_low
    → bit_or d.frame.length lo ≡ n
    → ltb (kind_max d.frame.kind) n ≡ false
    → push d lo ≡ (
      advance
          (record d { frame = record d.frame { length = n } })
          lo
          (if n == 0 then checksum_high else payload),
      need_more,
    )
unfolding push
push_length_low d k lo n hs hn hm = ground (arith, hs, hn, hm)

-- The decoder before the kind, and before the low byte of the length.
abbrev before_kind : Decoder → Decoder
before_kind d = record (reset d) { state = kind; checksum = update_checksum 0xffff 1 }

abbrev before_length_low : Decoder → ℕ → ℕ → Decoder
before_length_low d k hi = record (before_kind d) {
  frame = record d.frame { kind = k; length = hi * 2 ^ 8 };
  state = length_low;
  checksum = crc 0xffff (1 ∷ k ∷ hi ∷ []);
}

pub push_header :
    (d : Decoder) (k len : ℕ) (rest : List ℕ)
    → valid k ≡ true
    → len ≤ kind_max k
    → push_all (reset d) (b'D' ∷ b'V' ∷ 1 ∷ k ∷ len / 256 ∷ len % 256 ∷ rest)
      ≡ push_all (after_header d k len) rest
unfolding push reset
push_header d k len rest hv hl =
    let hm : len ≤ 2048 = unfold kind_max in ground arith in
    let joined : bit_or (len / 256 * 2 ^ 8) (len % 256) ≡ len =
      join_bytes (len / 256) (len % 256) (omega arith) (omega arith) ∙ omega arith in
    let fits : ltb (kind_max k) len ≡ false = ground arith in
    push_all_step _ _ _ _ refl
    ∙ push_all_step _ _ _ _ refl
    ∙ push_all_step _ _ _ _ refl
    ∙ push_all_step _ _ _ _ (push_kind (before_kind d) k refl hv)
    ∙ push_all_step _ _ _ _ refl
    ∙ push_all_step _ _ _ _
        (push_length_low (before_length_low d k (len / 256)) k (len % 256) len refl joined fits)

-- The decoder once the payload has been read.
abbrev pub after_payload : Decoder → List ℕ → Decoder
after_payload d bs = record d {
  frame = record d.frame { payload = write_at d.frame.payload d.payload_read bs };
  state = checksum_high;
  checksum = crc d.checksum bs;
  payload_read = d.frame.length;
}

push_byte :
    (d : Decoder) (b : ℕ) (s : DecodeState)
    → d.state ≡ payload
    → (if d.payload_read + 1 == d.frame.length then checksum_high else payload) ≡ s
    → push d b ≡ (
      advance
          (record d {
            frame = record d.frame { payload = update d.frame.payload d.payload_read b };
            payload_read = d.payload_read + 1;
          })
          b
          s,
      need_more,
    )
unfolding push
push_byte d b s hs e = ground (arith, hs, e)

pub push_payload :
    (bs : List ℕ) (d : Decoder) (rest : List ℕ)
    → d.state ≡ payload
    → d.payload_read + length bs ≡ d.frame.length
    → 0 < length bs
    → push_all d (bs ++ rest) ≡ push_all (after_payload d bs) rest
unfolding write_at
push_payload [] d rest hs hn pos = absurd (omega arith)
push_payload (b ∷ []) d rest hs hn pos =
    let e : d.payload_read + 1 ≡ d.frame.length = ground arith in
    push_all_step d _ b rest (push_byte d b checksum_high hs (ground arith)) ∙ rw e
push_payload (b ∷ c ∷ bs) d rest hs hn pos =
    push_all_step d _ b (c ∷ bs ++ rest) (push_byte d b payload hs (ground arith))
    ∙ push_payload (c ∷ bs)
        (advance
          (record d {
            frame = record d.frame { payload = update d.frame.payload d.payload_read b };
            payload_read = d.payload_read + 1;
          })
          b payload)
        rest refl (omega arith) (omega arith)
