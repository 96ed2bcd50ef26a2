-- ===== src/Serial/Encoding.antt =====
-- serial/frame.go, `Encode`: which arguments it takes, and what it leaves in the buffer.
use go_dav_os.Base.Ints.{ℤ, pos, negsuc}
use go_dav_os.Base.{
  ℕ, ◌+◌, ◌≤◌, ◌≡◌, ◌≢◌, ◌⊎◌, refl, true, false, ◌||◌, none, some, Option, Array, slice, ltb, ◌==◌,
  arith, Bool-cases, inl, inr,
}
use go_dav_os.Serial.{ok, encode, valid, kind_max}
use go_dav_os.Serial.Bytes.{frame_bytes, buffer_of, encode-frame_bytes}

-- The arguments of a frame: the output is there, the kind is a request or a response, the length is
-- at most 2048, and 1024 for a response, and the payload is there, if the length is not 0.
pub record IsEncodable (k : ℕ) (src : Option (Array ℕ)) (len : ℤ) (output : Option (Array ℕ))
    : Type 0 where
  pub there : output ≢ none
  pub kind : (k ≡ 1) ⊎ (k ≡ 2)
  pub count : ℕ
  pub counted : len ≡ pos count
  pub fits : count ≤ 2048
  pub fits_response : k ≡ 2 → count ≤ 1024
  pub filled : src ≡ none → count ≡ 0

-- The kinds are 1 and 2, with their limits.
valid_kind : (k : ℕ) → valid k ≡ true → (k ≡ 1) ⊎ (k ≡ 2)
unfolding valid
valid_kind k e = elim (Bool-cases (k == 1)) [
  | inl y ↦ inl (ground (arith, y))
  | inr n ↦ inr (ground (arith, n, e))
]

kind_valid : (k : ℕ) → (k ≡ 1) ⊎ (k ≡ 2) → valid k ≡ true
unfolding valid
kind_valid k (inl e) = ground (arith, e)
kind_valid k (inr e) = ground (arith, e)

-- A length that passes both of `Encode`'s tests is within its kind's limit.
small-kind_max :
    (k n : ℕ) → valid k ≡ true → (ltb 2048 n || ltb (kind_max k) n) ≡ false → n ≤ kind_max k
unfolding kind_max
small-kind_max k n hv e = ground (arith, e)

-- The length of a frame's arguments is within its kind's limit.
kind_max-small :
    (k n : ℕ) → n ≤ 2048 → (k ≡ 2 → n ≤ 1024) → (ltb 2048 n || ltb (kind_max k) n) ≡ false
unfolding kind_max
kind_max-small k n le le' = elim (Bool-cases (k == 2)) [
  | inl y ↦ let low = le' (ground (arith, y)) in ground (arith, y, le, low)
  | inr n' ↦ ground (arith, n', le)
]

small_response : (k n : ℕ) → n ≤ kind_max k → (n ≤ 2048) × (k ≡ 2 → n ≤ 1024)
unfolding kind_max
small_response k n le = (ground (arith, le), λ e. ground (arith, e, le))

abbrev pub Encoded : ℕ → Option (Array ℕ) → ℤ → Option (Array ℕ) → Type 0
Encoded k src len output =
    let (out, n, r) = encode k src len output in
    (v : IsEncodable k src len output) × (r ≡ ok)
    × (n ≡ v.count + 8)
    × (slice (buffer_of out) 0 n ≡ frame_bytes k v.count (slice (buffer_of src) 0 v.count))
    × ((j : ℕ) → n ≤ j → buffer_of out j ≡ buffer_of output j)

abbrev pub Refused : ℕ → Option (Array ℕ) → ℤ → Option (Array ℕ) → Type 0
Refused k src len output =
    let (out, n, r) = encode k src len output in
    (¬ IsEncodable k src len output) × (r ≢ ok) × (n ≡ 0) × (out ≡ output)

some_cases :
    (k n : ℕ) (src output : Array ℕ)
    → Encoded k (some src) (pos n) (some output) ⊎ Refused k (some src) (pos n) (some output)
unfolding encode
some_cases k n src output = elim (Bool-cases (valid k)) [
  | inr bad ↦ inr (rw bad (λ v. let t = kind_valid k v.kind in cc, λ e. cc, refl, refl))
  | inl good ↦ elim (Bool-cases (ltb 2048 n || ltb (kind_max k) n)) [
    | inl wide ↦ inr (
        rw (good, wide)
          (
            λ v.
                let same : n ≡ v.count = cc (v.counted) in
                let t = kind_max-small k v.count v.fits v.fits_response in cc (rw same at wide),
            λ e. cc,
            refl,
            refl,
          ))
    | inr fits ↦
        let le = small-kind_max k n good fits in
        let (small, response) = small_response k n le in
        let (e, m, bytes, after) = encode-frame_bytes k n src output good le in
        inl (
          record {
            there = λ x. cc;
            kind = valid_kind k good;
            count = n;
            counted = refl;
            fits = small;
            fits_response = response;
            filled = λ x. cc;
          },
          e,
          m,
          bytes,
          after,
        )
  ]
]

-- A payload that is not there is one of length 0.
none_cases :
    (k n : ℕ) (output : Array ℕ)
    → Encoded k none (pos n) (some output) ⊎ Refused k none (pos n) (some output)
unfolding encode
none_cases k n output = elim (Bool-cases (n == 0)) [
  | inr some_length ↦ inr (
      rw some_length (
        λ v.
            let same : n ≡ v.count = cc (v.counted) in
            let t = v.filled refl in ground (arith, same, t, some_length),
        λ e. cc,
        refl,
        refl,
      ))
  | inl empty ↦ elim (Bool-cases (valid k)) [
    | inr bad ↦ inr (rw (empty, bad) (λ v. let t = kind_valid k v.kind in cc, λ e. cc, refl, refl))
    | inl good ↦
        let none_left : n ≡ 0 = ground (arith, empty) in
        let fits : (ltb 2048 0 || ltb (kind_max k) 0) ≡ false = ground arith in
        let (e, m, bytes, after) = encode-frame_bytes k 0 (λ i. 0) output good (omega arith) in
        let same : encode k none (pos 0) (some output)
            ≡ encode k (some (λ i. 0)) (pos 0) (some output) =
          rw (good, fits) refl in
        inl (
          rw none_left (
            record {
              there = λ x. cc;
              kind = valid_kind k good;
              count = 0;
              counted = refl;
              fits = omega arith;
              fits_response = λ x. omega arith;
              filled = λ x. refl;
            },
            rw same e,
            rw same m,
            rw same bytes,
            rw same after,
          ))
  ]
]

-- `Encode` of any arguments: if they are those of a frame, it answers OK with the frame of 8 bytes more
-- than the length, and keeps the buffer's bytes past it; else the answer is not OK, with a length of 0
-- and the buffer as it was. The arguments are those of a frame exactly if the output is not nil, the
-- kind is 1 or 2, the length is from 0 to 2048, and to 1024 for kind 2, and a nil payload has length 0.
pub encode_cases :
    (k : ℕ) (src : Option (Array ℕ)) (len : ℤ) (output : Option (Array ℕ))
    → Encoded k src len output ⊎ Refused k src len output
unfolding encode
encode_cases k src len none = inr (λ v. v.there refl, λ e. cc, refl, refl)
encode_cases k src (negsuc len) (some output) =
    inr (λ v. let same = v.counted in cc, λ e. cc, refl, refl)
encode_cases k none (pos len) (some output) = none_cases k len output
encode_cases k (some src) (pos len) (some output) = some_cases k len src output
