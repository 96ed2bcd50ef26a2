-- ===== src/Serial/Bytes.antt =====
-- serial/frame.go, `Encode`: the bytes of a frame.
use mathlib.Core.Path.{ap, ap₂, ◌∙◌}
use go_dav_os.Base.{
  ℕ, zero, suc, ◌+◌, ◌-◌, ◌/◌, ◌%◌, ◌^◌, ◌<◌, ◌≤◌, ◌≡◌, refl, true, false, ◌&&◌, ◌||◌, none, some,
  Option, List, [], ◌∷◌, ◌++◌, Array, update, slice, ltb, leb, if◌then◌else◌, arith,
}
use go_dav_os.Base.Ints.{pos}
use go_dav_os.Serial.{
  ok, encode, write_header, header_checksum, payload_loop, update_checksum, valid, kind_max,
}
use go_dav_os.Serial.Checksum.{crc, crc-lt}

-- The four bytes of the header that the checksum covers.
abbrev pub covered : ℕ → ℕ → List ℕ
covered k len = 1 ∷ k ∷ len / 256 ∷ len % 256 ∷ []

-- The checksum of a frame with payload `bs`.
abbrev pub frame_crc : ℕ → ℕ → List ℕ → ℕ
frame_crc k len bs = crc (crc 0xffff (covered k len)) bs

-- A frame: magic, version, kind, length, payload, checksum; numbers are big-endian.
abbrev pub frame_bytes : ℕ → ℕ → List ℕ → List ℕ
frame_bytes k len bs =
    b'D'
    ∷ b'V'
    ∷ 1
    ∷ k
    ∷ len / 256
    ∷ len % 256
    ∷ (bs ++ frame_crc k len bs / 256 ∷ frame_crc k len bs % 256 ∷ [])

payload_loop_at :
    (n i : ℕ) (src out : Array ℕ) (c j : ℕ)
    → (payload_loop n i src out c).0 j
      ≡ (if leb (6 + i) j && ltb j (6 + i + n) then src (j - 6) else out j)
unfolding payload_loop
payload_loop_at zero i src out c j = ground arith
payload_loop_at (suc n) i src out c j =
    let here : 6 + i - 6 ≡ i = omega arith in
    ground (
      arith,
      here,
      payload_loop_at n (i + 1) src (update out (6 + i) (src i)) (update_checksum c (src i)) j,
    )

payload_loop-crc :
    (n i : ℕ) (src out : Array ℕ) (c : ℕ) → (payload_loop n i src out c).1 ≡ crc c (slice src i n)
unfolding payload_loop
payload_loop-crc zero i src out c = refl
payload_loop-crc (suc n) i src out c =
    payload_loop-crc n (i + 1) src (update out (6 + i) (src i)) (update_checksum c (src i))

slice_ext :
    (a b : Array ℕ) (i j n : ℕ)
    → ((k : ℕ) → k < n → a (i + k) ≡ b (j + k))
    → slice a i n ≡ slice b j n
slice_ext a b i j zero h = refl
slice_ext a b i j (suc n) h = ap₂ ◌∷◌ first (
    slice_ext a b (i + 1) (j + 1) n (λ k lt.
      let p : i + 1 + k ≡ i + (k + 1) = omega arith in
      let q : j + 1 + k ≡ j + (k + 1) = omega arith in rw (p, q) (h (k + 1) (omega arith))))
  where
    first : a i ≡ b j
    first =
        let p : i + 0 ≡ i = omega arith in
        let q : j + 0 ≡ j = omega arith in rw (p, q) at (h 0 (omega arith))

slice-append : (a : Array ℕ) (i m n : ℕ) → slice a i (m + n) ≡ slice a i m ++ slice a (i + m) n
slice-append a i zero n =
    let p : 0 + n ≡ n = omega arith in let q : i + 0 ≡ i = omega arith in rw (p, q)
slice-append a i (suc m) n =
    let p : suc m + n ≡ suc (m + n) = omega arith in
    let q : i + suc m ≡ i + 1 + m = omega arith in
    rw (p, q) (ap (λ l. a i ∷ l) (slice-append a (i + 1) m n))

module _ (k len : ℕ) (src output : Array ℕ) where
  abbrev header : Array ℕ
  header = write_header k len output

  abbrev body : Array ℕ
  body = (payload_loop len 0 src header (header_checksum 4 2 header 0xffff)).0

  abbrev sum : ℕ
  sum = (payload_loop len 0 src header (header_checksum 4 2 header 0xffff)).1

  header-crc :
      k < 256 → len < 65536 → header_checksum 4 2 header 0xffff ≡ crc 0xffff (covered k len)
  unfolding header_checksum write_header
  header-crc hk hl =
      let a : k % 2 ^ 8 ≡ k = omega arith in
      let b : len / 2 ^ 8 % 2 ^ 8 ≡ len / 256 = omega arith in
      let c : len % 2 ^ 8 ≡ len % 256 = omega arith in rw (a, b, c)

  sum-frame_crc : k < 256 → len < 65536 → sum ≡ frame_crc k len (slice src 0 len)
  sum-frame_crc hk hl =
      payload_loop-crc len 0 src header (header_checksum 4 2 header 0xffff)
      ∙ ap (λ c. crc c (slice src 0 len)) (header-crc hk hl)

  abbrev out : Array ℕ
  out = update (update body (6 + len) (sum / 2 ^ 8 % 2 ^ 8)) (6 + len + 1) (sum % 2 ^ 8)

  out-header : (j : ℕ) → j < 6 → out (0 + j) ≡ header (0 + j)
  out-header j lt =
      let e : 0 + j ≡ j = omega arith in
      rw e (ground (arith, payload_loop_at len 0 src header (header_checksum 4 2 header 0xffff) j))

  out_payload : (j : ℕ) → j < len → out (6 + j) ≡ src (0 + j)
  out_payload j lt =
      let here : 6 + j - 6 ≡ 0 + j = omega arith in
      ground
        (arith, here, payload_loop_at len 0 src header (header_checksum 4 2 header 0xffff) (6 + j))

  header_bytes :
      k < 256 → len < 65536 → slice header 0 6 ≡ b'D' ∷ b'V' ∷ 1 ∷ k ∷ len / 256 ∷ len % 256 ∷ []
  unfolding write_header
  header_bytes hk hl =
      let a : k % 2 ^ 8 ≡ k = omega arith in
      let b : len / 2 ^ 8 % 2 ^ 8 ≡ len / 256 = omega arith in rw (a, b)

  trailer_bytes : sum < 65536 → slice out (6 + len) 2 ≡ sum / 256 ∷ sum % 256 ∷ []
  trailer_bytes hs =
      let a : sum / 2 ^ 8 % 2 ^ 8 ≡ sum / 256 = omega arith in
      ap₂ (λ (x y : ℕ). x ∷ y ∷ []) (ground (arith, a)) (ground arith)

  out_bytes :
      k < 256 → len < 65536 → slice out 0 (6 + len + 2) ≡ frame_bytes k len (slice src 0 len)
  out_bytes hk hl =
      let s = sum-frame_crc hk hl in
      let hs : sum < 65536 =
        rw s (crc-lt _ (slice src 0 len) (crc-lt 0xffff (covered k len) (omega arith))) in
      let head = slice_ext out header 0 0 6 out-header ∙ header_bytes hk hl in
      let mid = slice_ext out src 6 0 len out_payload in
      let e : 6 + len + 2 ≡ 6 + (len + 2) = omega arith in
      rw e (slice-append out 0 6 (len + 2))
      ∙ ap₂ ◌++◌ head (slice-append out 6 len 2 ∙ ap₂ ◌++◌ mid (rw (← s) (trailer_bytes hs)))

  -- Past the frame the buffer is as it was.
  out_after : (j : ℕ) → 6 + len + 2 ≤ j → out j ≡ output j
  unfolding write_header
  out_after j le =
      ground (arith, le, payload_loop_at len 0 src header (header_checksum 4 2 header 0xffff) j)

-- The bytes that a pointer points to.
abbrev pub buffer_of : Option (Array ℕ) → Array ℕ
buffer_of none = λ i. 0
buffer_of (some b) = b

-- `Encode` of a payload that fits its kind answers OK with the frame of `len + 8` bytes, and keeps what
-- the buffer holds past it.
pub encode-frame_bytes :
    (k len : ℕ) (src output : Array ℕ)
    → valid k ≡ true
    → len ≤ kind_max k
    → let (out, n, r) = encode k (some src) (pos len) (some output) in
      (r ≡ ok)
      × (n ≡ len + 8)
      × (slice (buffer_of out) 0 n ≡ frame_bytes k len (slice src 0 len))
      × ((j : ℕ) → n ≤ j → buffer_of out j ≡ output j)
unfolding encode
encode-frame_bytes k len src output hv hl =
    let hk : k < 256 = unfold valid in ground arith in
    let hm : len ≤ 2048 = unfold kind_max in ground arith in
    let fits : (ltb 2048 len || ltb (kind_max k) len) ≡ false = ground arith in
    let n : 6 + len + 2 ≡ len + 8 = omega arith in
    rw (hv, fits) (refl, n, out_bytes k len src output hk (omega arith), out_after k len src output)
