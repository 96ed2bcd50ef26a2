-- ===== src/Terminal/Decimal.antt =====
-- terminal/format.go: the text of `FormatInt` as a number.
use native.Mathlib.Nat.{pow-suc}
use go_dav_os.Base.{
  ℕ, zero, suc, ◌+◌, ◌-◌, ◌*◌, ◌/◌, ◌%◌, ◌^◌, ◌<◌, ◌≤◌, ◌≡◌, ◌≢◌, refl, sym, ap, ◌∙◌, true, false,
  some, Array, update, ◌==◌, ==_iff, if◌then◌else◌, arith, Bool-cases, inl, inr,
}
use go_dav_os.Base.Ints.{ℤ, pos, negsuc}
use go_dav_os.Terminal.Numbers.{digits_loop, put_sign, empty_buffer, format_int}

-- The number of `n` decimal digits from place `i` on, after the digits of `acc`.
unfoldable pub decimal : Array ℕ → ℕ → ℕ → ℕ → ℕ
decimal b zero i acc = acc
decimal b (suc n) i acc = decimal b n (i + 1) (acc * 10 + (b i - 48))

-- The number that is written from place `start` of the buffer on.
unfoldable pub read_int : Array ℕ → ℕ → ℤ
read_int b start =
    if b start == b'-'
    then negsuc (decimal b (19 - start) (start + 1) 0 - 1)
    else pos (decimal b (20 - start) start 0)

decimal-last :
    (b : Array ℕ) (n i acc : ℕ)
    → decimal b (suc n) i acc ≡ decimal b n i acc * 10 + (b (i + n) - 48)
unfolding decimal
decimal-last b zero i acc = let plus : i + 0 ≡ i = omega arith in rw plus refl
decimal-last b (suc n) i acc =
    let plus : i + 1 + n ≡ i + suc n = omega arith in
    rw plus at (decimal-last b n (i + 1) (acc * 10 + (b i - 48)))

decimal_ext :
    (b c : Array ℕ) (n i acc : ℕ)
    → ((k : ℕ) → i ≤ k → k < i + n → b k ≡ c k)
    → decimal b n i acc ≡ decimal c n i acc
unfolding decimal
decimal_ext b c zero i acc same = refl
decimal_ext b c (suc n) i acc same = rw (same i (omega arith) (omega arith)) (
    decimal_ext b c n (i + 1) (acc * 10 + (c i - 48))
      (λ k lo hi. same k (omega (arith, lo)) (omega (arith, hi))))

-- What the loop leaves: `n` digits before `start`, which read as `u`.
record Written (start u : ℕ) (buf : Array ℕ) : Type 0 where
  text : Array ℕ
  first : ℕ
  count : ℕ
  done : digits_loop start u buf ≡ some (text, first)
  place : first + count ≡ start
  value : decimal text count first 0 ≡ u
  digit : (k : ℕ) → first ≤ k → k < start → (48 ≤ text k) × (text k < 58)
  short : (m : ℕ) → u < 10 ^ m → count ≤ m
  kept : (k : ℕ) → start ≤ k → text k ≡ buf k

short_step :
    (u m count : ℕ) → u ≢ 0 → u < 10 ^ m → ((k : ℕ) → u / 10 < 10 ^ k → count ≤ k) → suc count ≤ m
short_step u zero count some_left lt short = absurd (omega (arith, some_left, lt))
short_step u (suc m) count some_left lt short =
    let power : 10 ^ suc m ≡ 10 ^ m * 10 = pow-suc 10 m in
    omega (arith, short m (omega (arith, lt, power)))

digits_loop-Written : (start u : ℕ) (buf : Array ℕ) → u < 10 ^ start → Written start u buf
unfolding digits_loop decimal
digits_loop-Written zero u buf small =
    let none_left : u ≡ 0 = omega (arith, small) in
    let test : (u == 0) ≡ true = ground (arith, none_left) in
    record {
      text = buf;
      first = 0;
      count = 0;
      done = rw test refl;
      place = refl;
      value = sym none_left;
      short = λ m lt. omega arith;
      digit = λ k lo hi. absurd (omega (arith, hi));
      kept = λ k lo. refl;
    }
digits_loop-Written (suc start) u buf small = elim (Bool-cases (u == 0)) [
  | inl finished ↦ record {
    text = buf;
    first = suc start;
    count = 0;
    done = rw finished refl;
    place = omega arith;
    value = sym ((==_iff u 0).0 finished);
    short = λ m lt. omega arith;
    digit = λ k lo hi. absurd (omega (arith, lo, hi));
    kept = λ k lo. refl;
  }
  | inr more ↦
      let less : u / 10 < 10 ^ start =
        let power : 10 ^ suc start ≡ 10 ^ start * 10 = pow-suc 10 start in
        omega (arith, small, power) in
      let w = digits_loop-Written start (u / 10) (update buf start (48 + u % 10)) less in
      let here : w.text start ≡ 48 + u % 10 = w.kept start (omega arith) ∙ ground arith in
      record {
        text = w.text;
        first = w.first;
        count = suc w.count;
        done = rw more w.done;
        place = omega (arith, w.place);
        value = decimal-last w.text w.count w.first 0 ∙ rw (w.place, here, w.value) (omega arith);
        short = λ m lt. short_step u m w.count (ground (arith, more)) lt w.short;
        digit = λ k lo hi. elim (Bool-cases (k == start)) [
          | inl same ↦ rw ((==_iff k start).0 same, here) (omega arith, omega arith)
          | inr other ↦ w.digit k lo (ground (arith, other, hi))
        ];
        kept = λ k lo. w.kept k (omega (arith, lo)) ∙ ground (arith, lo);
      }
]

-- The numbers of an int.
unfoldable pub InRange : ℤ → Type 0
InRange (pos n) = n < 2 ^ 63
InRange (negsuc n) = n < 2 ^ 63

some_digits : {start u : ℕ} {buf : Array ℕ} (w : Written start u buf) → u ≢ 0 → w.count ≢ 0
unfolding decimal
some_digits {start} {u} {buf} w some_left = λ e. some_left (sym (rw e at w.value))

pos_reads :
    (n : ℕ) (w : Written 20 n empty_buffer)
    → n ≢ 0
    → (w.first < 20) × (read_int w.text w.first ≡ pos n)
unfolding read_int
pos_reads n w some_left =
    let count = some_digits w some_left in
    let low : w.first < 20 = omega (arith, w.place, count) in
    let (at_least, _) = w.digit w.first (omega arith) low in
    let sign : (w.text w.first == 45) ≡ false = ground (arith, at_least) in
    let all : 20 - w.first ≡ w.count = omega (arith, w.place) in (low, rw (sign, all, w.value) refl)

neg_reads :
    (n start : ℕ) (w : Written 20 (n + 1) empty_buffer)
    → w.first ≡ suc start
    → read_int (update w.text start b'-') start ≡ negsuc n
unfolding read_int
neg_reads n start w e =
    let sign : (update w.text start b'-' start == 45) ≡ true = ground arith in
    let all : 19 - start ≡ w.count = omega (arith, w.place, e) in
    let next : suc start ≡ start + 1 = omega arith in
    let same : decimal (update w.text start b'-') w.count (start + 1) 0 ≡ n + 1 =
      decimal_ext (update w.text start b'-') w.text w.count (start + 1) 0
        (λ k lo hi. ground (arith, lo))
      ∙ (rw (e, next) at w.value) in
    rw (sign, all, same) (ap negsuc (omega arith))

-- The text of the number, inside the buffer.
abbrev pub Reads : ℤ → Type 0
Reads v =
    (buf : Array ℕ) × (start : ℕ) × (format_int v ≡ some (buf, start))
    × (start < 20)
    × (read_int buf start ≡ v)

pos_done : (n : ℕ) → n % 2 ^ 64 ≡ n → (n == 0) ≡ false → Written 20 n empty_buffer → Reads (pos n)
unfolding format_int
pos_done n whole some_left w =
    let (low, value) = pos_reads n w (ground (arith, some_left)) in
    (w.text, w.first, rw (some_left, whole, w.done) refl, low, value)

neg_done :
    (n : ℕ)
    → (n % 2 ^ 64 + 1) % 2 ^ 64 ≡ n + 1
    → n < 2 ^ 63
    → Written 20 (n + 1) empty_buffer
    → Reads (negsuc n)
unfolding format_int put_sign
neg_done n whole small w =
    let few = w.short 19 (omega (arith, small)) in
    let start = w.first - 1 in
    let e : w.first ≡ suc start = omega (arith, w.place, few) in
    (
      update w.text start b'-',
      start,
      rw (whole, w.done, format_int) (ap put_sign (ap (λ k. (w.text, k)) e)),
      omega (arith, w.place),
      neg_reads n start w e,
    )

-- `FormatInt` of every int stays inside its buffer of 20 bytes, and its text reads back as the number.
pub read_int-format_int :
    (v : ℤ)
    → InRange v
    → (buf : Array ℕ) × (start : ℕ) × (format_int v ≡ some (buf, start))
      × (start < 20)
      × (read_int buf start ≡ v)
unfolding format_int InRange read_int decimal
read_int-format_int (pos n) small = elim (Bool-cases (n == 0)) [
  | inl none_left ↦ (
    update empty_buffer 19 b'0',
    19,
    rw none_left refl,
    omega arith,
    ap pos (sym ((==_iff n 0).0 none_left)),
  )
  | inr some_left ↦
      let whole : n % 2 ^ 64 ≡ n = omega (arith, small) in
      pos_done n whole some_left (digits_loop-Written 20 n empty_buffer (omega (arith, small)))
]
read_int-format_int (negsuc n) small =
    let whole : (n % 2 ^ 64 + 1) % 2 ^ 64 ≡ n + 1 = omega (arith, small) in
    neg_done n whole small (digits_loop-Written 20 (n + 1) empty_buffer (omega (arith, small)))
