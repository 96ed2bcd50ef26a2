-- ===== src/Serial/Bounds.antt =====
-- serial/frame.go, `Push`: the decoder stays within its payload buffer.
use go_dav_os.Base.{ℕ, ◌+◌, ◌<◌, ◌≤◌, ◌≡◌, refl, ltb, ◌==◌, Bool-cases, arith, bit_or, inl, inr}
use go_dav_os.Serial.{
  Decoder, DecodeState, magic_first, magic_second, version, kind, length_high, length_low, payload,
  checksum_high, checksum_low, push, push_in, reset, kind_max, valid,
}

-- What holds in each state: nothing of the payload is read before its length is known, and then the
-- next byte has a place in a payload that fits its kind.
abbrev pub Bounds : DecodeState → Decoder → Type 0
Bounds payload d = (d.payload_read < d.frame.length) × (d.frame.length ≤ kind_max d.frame.kind)
Bounds checksum_high d = Unit
Bounds checksum_low d = Unit
Bounds _ d = d.payload_read ≡ 0

abbrev pub IsSound : Decoder → Type 0
IsSound d = Bounds d.state d

pub reset-IsSound : (d : Decoder) → IsSound (reset d)
unfolding reset
reset-IsSound d = refl

push_in-IsSound :
    (s : DecodeState) (d : Decoder) (b : ℕ) → d.state ≡ s → Bounds s d → IsSound (push_in s d b).0
unfolding push_in reset
push_in-IsSound magic_first d b e v = elim (Bool-cases (b == b'D')) [
  | inl y ↦ rw y v
  | inr n ↦ rw n refl
]
push_in-IsSound magic_second d b e v = elim (Bool-cases (b == b'V')) [
  | inl y ↦ rw y v
  | inr n ↦ rw n refl
]
push_in-IsSound version d b e v = elim (Bool-cases (b == 1)) [ inl y ↦ rw y v | inr n ↦ rw n refl ]
push_in-IsSound kind d b e v = elim (Bool-cases (valid b)) [ inl y ↦ rw y v | inr n ↦ rw n refl ]
push_in-IsSound length_high d b e v = v
push_in-IsSound length_low d b e v =
    let n = bit_or d.frame.length b in
    elim (Bool-cases (ltb (kind_max d.frame.kind) n)) [
      | inl y ↦ rw y refl
      | inr fits ↦ elim (Bool-cases (n == 0)) [
        | inl none ↦ rw (fits, none) tt
        | inr some ↦ rw (fits, some) (ground arith, ground arith)
      ]
    ]
push_in-IsSound payload d b e v = elim (Bool-cases (d.payload_read + 1 == d.frame.length)) [
  | inl last ↦ rw last tt
  | inr more ↦ rw more (ground arith, v.1)
]
push_in-IsSound checksum_high d b e v = tt
push_in-IsSound checksum_low d b e v = elim (Bool-cases (bit_or d.received_crc b == d.checksum)) [
  | inl y ↦ rw (y, e) tt
  | inr n ↦ rw n refl
]

kind_max-le : (k : ℕ) → kind_max k ≤ 2048
unfolding kind_max
kind_max-le k = ground arith

-- A sound decoder stores its next byte inside the payload's 2048 bytes.
pub IsSound-inside : (d : Decoder) → IsSound d → d.state ≡ payload → d.payload_read < 2048
IsSound-inside d v e = inside (rw e at v)
  where
    inside : Bounds payload d → d.payload_read < 2048
    inside w = omega (arith, w, kind_max-le d.frame.kind)

-- From a sound decoder `Push` leads to a sound one, whatever the byte: while it reads the payload, the
-- next byte has a place in a payload that fits its kind.
pub push-IsSound : (d : Decoder) (b : ℕ) → IsSound d → IsSound (push d b).0
unfolding push
push-IsSound d b v = push_in-IsSound d.state d b refl v
