-- ===== src/Serial.antt =====
-- serial/frame.go: the frames that the guest and the host exchange, with their encoder and the
-- byte-by-byte decoder. The decoder's pointers are not nil.
pub mod Checksum
pub mod Bytes
pub mod Encoding
pub mod RoundTrip
pub mod Decoding
pub mod Bounds
mod Examples
use go_dav_os.Base.Ints.{ℤ, pos, negsuc}
use go_dav_os.Base.{
  ℕ, zero, suc, ◌+◌, ◌-◌, ◌*◌, ◌/◌, ◌%◌, ◌^◌, bit_and, bit_or, bit_xor, Bool, true, false, not,
  ◌&&◌, ◌||◌, Option, none, some, List, [], ◌∷◌, Array, update, ltb, leb, ◌==◌, if◌then◌else◌,
}

abbrev pub frame_version : ℕ
frame_version = 1

abbrev pub max_request_payload : ℕ
max_request_payload = 2048

abbrev pub max_response_payload : ℕ
max_response_payload = 1024

abbrev pub max_payload : ℕ
max_payload = max_request_payload

abbrev pub frame_header_size : ℕ
frame_header_size = 6

abbrev pub frame_trailer_size : ℕ
frame_trailer_size = 2

abbrev pub max_frame_size : ℕ
max_frame_size = frame_header_size + max_payload + frame_trailer_size

abbrev pub frame_magic_first : ℕ
frame_magic_first = b'D'

abbrev pub frame_magic_second : ℕ
frame_magic_second = b'V'

-- `FrameKind` is a byte; these are the two that are valid.
abbrev pub frame_request : ℕ
frame_request = 1

abbrev pub frame_response : ℕ
frame_response = 2

-- `Result`
pub data Result : Type 0 where
  ok need_more invalid_payload port_unavailable write_timeout read_timeout partial_frame
        malformed_frame oversized_frame unexpected_frame :
      Result

-- The decoder's states. No byte drives the decoder to another state than these.
pub data DecodeState : Type 0 where
  magic_first magic_second version kind length_high length_low payload checksum_high checksum_low :
      DecodeState

-- `Frame`
pub record Frame : Type 0 where
  pub kind : ℕ
  pub payload : Array ℕ
  pub length : ℕ

-- `Decoder`
pub record Decoder : Type 0 where
  pub frame : Frame
  pub state : DecodeState
  pub checksum : ℕ
  pub received_crc : ℕ
  pub payload_read : ℕ

unfoldable pub valid : ℕ → Bool
valid k = k == frame_request || k == frame_response

unfoldable pub kind_max : ℕ → ℕ
kind_max k = if k == frame_response then max_response_payload else max_request_payload

-- One round of the loop in `updateChecksum`.
unfoldable pub shift_once : ℕ → ℕ
shift_once c = if bit_and c 0x8000 == 0 then c * 2 % 2 ^ 16 else bit_xor (c * 2 % 2 ^ 16) 0x1021

unfoldable pub shift_times : ℕ → ℕ → ℕ
shift_times zero c = c
shift_times (suc n) c = shift_times n (shift_once c)

unfoldable pub update_checksum : ℕ → ℕ → ℕ
unfolding shift_times shift_once
update_checksum checksum value = shift_times 8 (bit_xor checksum (value * 2 ^ 8))

-- `for i := 2; i < frameHeaderSize; i++`, over the rounds left.
unfoldable pub header_checksum : ℕ → ℕ → Array ℕ → ℕ → ℕ
header_checksum zero i output c = c
header_checksum (suc n) i output c = header_checksum n (i + 1) output (update_checksum c (output i))

-- The payload's loop: each byte goes to the output and into the checksum.
unfoldable pub payload_loop : ℕ → ℕ → Array ℕ → Array ℕ → ℕ → Array ℕ × ℕ
payload_loop zero i src output c = (output, c)
payload_loop (suc n) i src output c =
    payload_loop n (i + 1) src (update output (frame_header_size + i) (src i))
      (update_checksum c (src i))

-- The six bytes of the header.
unfoldable pub write_header : ℕ → ℕ → Array ℕ → Array ℕ
write_header k len output =
    update
      (update
        (update
          (update (update (update output 0 frame_magic_first) 1 frame_magic_second) 2 frame_version)
          3 (k % 2 ^ 8))
        4 (len / 2 ^ 8 % 2 ^ 8))
      5 (len % 2 ^ 8)

-- The frame of a payload that is there and fits.
unfoldable pub write_frame : ℕ → Array ℕ → ℕ → Array ℕ → Array ℕ × ℕ
unfolding write_header header_checksum
write_frame k src len output =
    let header = write_header k len output in
    let (body, c) = payload_loop len 0 src header (header_checksum 4 2 header 0xffff) in
    let at = frame_header_size + len in
    (update (update body at (c / 2 ^ 8 % 2 ^ 8)) (at + 1) (c % 2 ^ 8), at + frame_trailer_size)

-- `Encode`: the output buffer, the frame's length and the result; `none` is a nil pointer.
unfoldable pub encode : ℕ → Option (Array ℕ) → ℤ → Option (Array ℕ) → Option (Array ℕ) × ℕ × Result
unfolding write_frame
encode k src len none = (none, 0, invalid_payload)
encode k src (negsuc len) (some output) = (some output, 0, invalid_payload)
encode k none (pos len) (some output) =
    if not (len == 0)
    then (some output, 0, invalid_payload)
    else if not (valid k)
    then (some output, 0, malformed_frame)
    else let (out, n) = write_frame k (λ i. 0) 0 output in (some out, n, ok)
encode k (some src) (pos len) (some output) =
    let (out, n) = write_frame k src len output in
    if not (valid k)
    then (some output, 0, malformed_frame)
    else if ltb max_payload len || ltb (kind_max k) len
    then (some output, 0, oversized_frame)
    else (some out, n, ok)

-- `Reset` keeps the payload's bytes.
unfoldable pub reset : Decoder → Decoder
reset d = record d {
  frame = record d.frame { kind = 0; length = 0 };
  state = magic_first;
  checksum = 0xffff;
  received_crc = 0;
  payload_read = 0;
}

-- The byte goes into the checksum, and the decoder on to state `s`.
abbrev pub advance : Decoder → ℕ → DecodeState → Decoder
advance d value s = record d { checksum = update_checksum d.checksum value; state = s }

-- `Push`, by the state that the decoder is in.
unfoldable pub push_in : DecodeState → Decoder → ℕ → Decoder × Result
push_in magic_first d value =
    if not (value == frame_magic_first)
    then (reset d, malformed_frame)
    else (record d { state = magic_second }, need_more)
push_in magic_second d value =
    if not (value == frame_magic_second)
    then (reset d, malformed_frame)
    else (record d { state = version }, need_more)
push_in version d value =
    if not (value == frame_version)
    then (reset d, malformed_frame)
    else (advance d value kind, need_more)
push_in kind d value =
    let e = record d { frame = record d.frame { kind = value } } in
    if not (valid value)
    then (reset e, malformed_frame)
    else (advance e value length_high, need_more)
push_in length_high d value = (
  advance (record d { frame = record d.frame { length = value * 2 ^ 8 } }) value length_low,
  need_more,
)
push_in length_low d value =
    let n = bit_or d.frame.length value in
    let e = record d { frame = record d.frame { length = n } } in
    if ltb (kind_max d.frame.kind) n
    then (reset (advance e value length_low), oversized_frame)
    else (advance e value (if n == 0 then checksum_high else payload), need_more)
push_in payload d value =
    let i = d.payload_read in
    let e = record d {
      frame = record d.frame { payload = update d.frame.payload i value };
      payload_read = i + 1;
    } in
    (advance e value (if i + 1 == d.frame.length then checksum_high else payload), need_more)
push_in checksum_high d value =
    (record d { received_crc = value * 2 ^ 8; state = checksum_low }, need_more)
push_in checksum_low d value =
    let e = record d { received_crc = bit_or d.received_crc value } in
    if not (e.received_crc == e.checksum) then (reset e, malformed_frame) else (e, ok)

-- `Push`
unfoldable pub push : Decoder → ℕ → Decoder × Result
unfolding push_in reset
push d value = push_in d.state d value
