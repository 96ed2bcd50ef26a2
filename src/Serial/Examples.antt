-- ===== src/Serial/Examples.antt =====
-- serial/frame.go: frames of three bytes.
use go_dav_os.Base.{ℕ, ◌+◌, ◌≡◌, ◌<◌, refl, ◌⊎◌, none, some, [], ◌∷◌, ◌++◌, Array, slice, arith}
use go_dav_os.Serial.{
  Decoder, ok, invalid_payload, malformed_frame, encode, valid, kind_max, push, reset, magic_first,
}
use go_dav_os.Base.Ints.{pos, negsuc}
use go_dav_os.Serial.Bytes.{frame_crc, buffer_of}
use go_dav_os.Serial.Encoding.{Encoded, Refused, encode_cases}
use go_dav_os.Serial.RoundTrip.{push_all}
use go_dav_os.Serial.Decoding.{frame_with, push_all-encode, push_all_damaged}
use go_dav_os.Serial.Bounds.{IsSound, reset-IsSound, push-IsSound}

abbrev zeros : Array ℕ
zeros = λ i. 0

abbrev text : Array ℕ
text = λ i. i + 65

-- A decoder in the middle of nothing.
abbrev decoder : Decoder
decoder = record {
  frame = record { kind = 0; payload = λ i. 7; length = 9 };
  state = magic_first;
  checksum = 1;
  received_crc = 2;
  payload_read = 3;
}

encode_cases_example :
    Encoded 1 (some text) (pos 3) (some zeros) ⊎ Refused 1 (some text) (pos 3) (some zeros)
encode_cases_example = encode_cases 1 (some text) (pos 3) (some zeros)

-- A nil payload is refused before the kind is looked at, and a negative length before the payload.
nil_payload : (encode 7 none (pos 3) (some zeros)).2 ≡ invalid_payload
unfolding encode
nil_payload = refl

negative_length : (encode 7 (some text) (negsuc 0) (some zeros)).2 ≡ invalid_payload
unfolding encode
negative_length = refl

nil_output : (encode 7 (some text) (pos 3) none).2 ≡ invalid_payload
unfolding encode
nil_output = refl

push_all-encode_example :
    let (out, n, _) = encode 2 (some text) (pos 3) (some zeros) in
    let (d', r, left) = push_all (reset decoder) (slice (buffer_of out) 0 n ++ 5 ∷ []) in
    (r ≡ ok)
    × (left ≡ 5 ∷ [])
    × (d'.frame.kind ≡ 2)
    × (d'.frame.length ≡ 3)
    × ((i : ℕ) → i < 3 → d'.frame.payload i ≡ text i)
unfolding valid kind_max
push_all-encode_example = push_all-encode decoder 2 3 text zeros (5 ∷ []) refl (omega arith)

push_all_damaged_example :
    (push_all
      (reset decoder)
      (frame_with 2 3 (65 ∷ 70 ∷ 67 ∷ []) (frame_crc 2 3 (65 ∷ 66 ∷ 67 ∷ [])) ++ [])).1
    ≡ malformed_frame
unfolding valid kind_max
push_all_damaged_example =
    push_all_damaged decoder 2 3 (65 ∷ []) (67 ∷ []) [] 66 70 refl (omega arith) refl refl
      (omega arith) (omega arith) (omega arith, tt) (omega arith)

push-IsSound_example : IsSound (push (reset decoder) 0x44).0
push-IsSound_example = push-IsSound (reset decoder) 0x44 (reset-IsSound decoder)
