-- ===== src/Keyboard/Ring.antt =====
-- keyboard/irq.go: the ring is a queue of at most 255 characters.
use mathlib.Core.Path.{ap₂, ◌∙◌}
use go_dav_os.Base.{
  ℕ, zero, suc, ◌+◌, ◌-◌, ◌%◌, ◌<◌, ◌≡◌, ◌≢◌, ◌⊎◌, refl, ap, false, none, some, List, [], ◌∷◌, ◌++◌,
  Array, update, update_ne, update_self, ◌==◌, if◌then◌else◌, arith, Bool-cases, inl, inr,
}
use go_dav_os.Keyboard.{Keyboard, push, try_read}

pub record IsValid (k : Keyboard) : Type 0 where
  pub head_inside : k.head < 256
  pub tail_inside : k.tail < 256

-- The `n` characters from place `t` on, around the ring.
unfoldable pub ring : Array ℕ → ℕ → ℕ → List ℕ
ring buf t zero = []
ring buf t (suc n) = buf t ∷ ring buf ((t + 1) % 256) n

-- How many characters wait, and which, the oldest first.
abbrev pub waiting_count : Keyboard → ℕ
waiting_count k = (k.head + 256 - k.tail) % 256

abbrev pub contents : Keyboard → List ℕ
contents k = ring k.buf k.tail (waiting_count k)

-- A place that is not among those read can be written.
ring-update :
    (buf : Array ℕ) (h r t n : ℕ)
    → t < 256
    → ((i : ℕ) → i < n → h ≢ (t + i) % 256)
    → ring (update buf h r) t n ≡ ring buf t n
unfolding ring
ring-update buf h r t zero ht apart = refl
ring-update buf h r t (suc n) ht apart =
    let here : t ≢ h = omega (arith, apart 0 (omega arith)) in
    ap₂ ◌∷◌ (update_ne buf h t r here) (
      ring-update buf h r ((t + 1) % 256) n (omega arith)
        (λ i lt. omega (arith, apart (i + 1) (omega (arith, lt)))))

ring-snoc :
    (buf : Array ℕ) (t n : ℕ)
    → t < 256
    → ring buf t (suc n) ≡ ring buf t n ++ buf ((t + n) % 256) ∷ []
unfolding ring
ring-snoc buf t zero ht = let here : (t + 0) % 256 ≡ t = omega arith in rw here refl
ring-snoc buf t (suc n) ht =
    let there : (t + suc n) % 256 ≡ ((t + 1) % 256 + n) % 256 = omega arith in
    rw there (ap (λ rest. buf t ∷ rest) (ring-snoc buf ((t + 1) % 256) n (omega arith)))

-- `push` puts the character at the end of the queue; when 255 wait, it drops it.
pub push-contents :
    {k : Keyboard} (r : ℕ)
    → IsValid k
    → contents (push r k) ≡ (if waiting_count k == 255 then contents k else contents k ++ r ∷ [])
unfolding push
push-contents {k} r v = elim (Bool-cases ((k.head + 1) % 256 == k.tail)) [
  | inl full ↦
      let all : waiting_count k ≡ 255 = ground (arith, v.head_inside, v.tail_inside) in
      rw (full, all) refl
  | inr space ↦
      let w = waiting_count k in
      let more : ((k.head + 1) % 256 + 256 - k.tail) % 256 ≡ suc w =
        ground (arith, v.head_inside, v.tail_inside) in
      let few : (w == 255) ≡ false = ground (arith, v.head_inside, v.tail_inside) in
      let end : (k.tail + w) % 256 ≡ k.head = omega (arith, v.head_inside, v.tail_inside) in
      rw (space, few, more)
        (ring-snoc (update k.buf k.head r) k.tail w v.tail_inside
          ∙ ap₂ (λ xs x. xs ++ x ∷ [])
              (ring-update k.buf k.head r k.tail w v.tail_inside
                (λ i lt. omega (arith, lt, v.head_inside, v.tail_inside)))
              (rw end (update_self k.buf k.head r)))
]

-- `TryRead` takes the oldest character off the queue, and answers that there is none exactly when the
-- queue is empty.
pub try_read-contents :
    {k : Keyboard}
    → IsValid k
    → ((try_read k ≡ (k, none)) × (contents k ≡ []))
      ⊎ ((r : ℕ) × ((try_read k).1 ≡ some r) × (contents k ≡ r ∷ contents (try_read k).0))
unfolding try_read ring
try_read-contents {k} v = elim (Bool-cases (k.tail == k.head)) [
  | inl none_waits ↦
      let empty : waiting_count k ≡ 0 = ground (arith, v.head_inside) in
      rw (none_waits, empty) (inl (refl, refl))
  | inr some_wait ↦
      let rest = (k.head + 256 - (k.tail + 1) % 256) % 256 in
      let more : waiting_count k ≡ suc rest = ground (arith, v.head_inside, v.tail_inside) in
      rw (some_wait, more) (inr (k.buf k.tail, refl, refl))
]

-- Both operations keep the two places inside the ring.
pub push-IsValid : {k : Keyboard} (r : ℕ) → IsValid k → IsValid (push r k)
unfolding push
push-IsValid {k} r v = ground (arith, v)

pub try_read-IsValid : {k : Keyboard} → IsValid k → IsValid (try_read k).0
unfolding try_read
try_read-IsValid {k} v = ground (arith, v)
