-- ===== src/Machine/Overlays/Order.antt =====
-- The order of overlays as a list of 1-based indices, the latest first, and what
-- `machine_update_overlays` makes of it.
use libxkbcommon.Base.{
  ℕ, zero, suc, ◌+◌, ◌-◌, ◌*◌, ◌/◌, ◌^◌, ◌≤◌, ◌<◌, ◌≡◌, refl, ap, ◌∙◌, arith, true, false, ◌&&◌,
  ◌||◌, Bool-cases, inl, inr, List, [], ◌∷◌, ◌==◌, leb, ltb, if◌then◌else◌, length, bit_and, u8,
  clear, testbit, testbit_ext, testbit-clear-pow, has-pow, clear-lt, testbit-half, testbit-clear,
}
use native.Mathlib.Nat.{pow-suc, pow-le-pow_right}
use libxkbcommon.Digits.{
  shift_left, shift_left-add, shift_left-16, shift_left-le, shift_left-div, bit_and-15,
}
use libxkbcommon.Machine.Overlays.{keep_enabled, add_overlays, overlays_order_after}
use libxkbcommon.Machine.Overlays.Digits.{
  value, AreNibbles, value-lt, read_nibble, remove_nibble-value, push_nibble,
}

-- The overlays that are still enabled, in the same order.
abbrev pub keep : ℕ → List ℕ → List ℕ
keep mask [] = []
keep mask (d ∷ l) = let rest = keep mask l in if testbit mask (d - 1) then d ∷ rest else rest

-- The overlays with a bit in `added`, from index `k` on, put in front one by one.
abbrev pub push_new : ℕ → ℕ → ℕ → List ℕ → List ℕ
push_new zero k added l = l
push_new (suc n) k added l =
    push_new n (k + 1) (added / 2) (if testbit added 0 then (k + 1) ∷ l else l)

-- The order after an update, on lists.
abbrev pub order_after : ℕ → ℕ → List ℕ → List ℕ
order_after mask enabled l = push_new 8 0 (clear mask enabled) (keep mask l)

-- No overlay of the list has a bit in the mask.
abbrev Avoids : ℕ → List ℕ → Type 0
Avoids added [] = Unit
Avoids added (d ∷ l) = (testbit added (d - 1) ≡ false) × Avoids added l

clear_absent : (x i : ℕ) → x < 4294967296 → i < 32 → testbit x i ≡ false → clear x (2 ^ i) ≡ x
clear_absent x i h k e =
    testbit_ext 32 (clear x (2 ^ i)) x (clear-lt x (2 ^ i) h) h
      (λ j m. ground (arith, testbit-clear-pow x i j k m))

pub byte_pow : (d : ℕ) → d ≤ 8 → u8 (2 ^ (d - 1)) ≡ 2 ^ (d - 1)
byte_pow d h =
    omega (arith, pow-le-pow_right {n = 2} (omega arith) {i = d - 1} {j = 7} (omega arith))

next_shift : (n v : ℕ) → shift_left ((n + 1) * 4) v ≡ 16 * shift_left (n * 4) v
next_shift n v =
    let e : (n + 1) * 4 ≡ suc (suc (suc (suc (n * 4)))) = omega arith in rw e (omega arith)

next_pow : (n : ℕ) → 2 ^ ((n + 1) * 4) ≡ 16 * 2 ^ (n * 4)
next_pow n =
    let e : (n + 1) * 4 ≡ suc (suc (suc (suc (n * 4)))) = omega arith in
    rw e (
      omega (
        arith,
        pow-suc 2 (n * 4),
        pow-suc 2 (suc (n * 4)),
        pow-suc 2 (suc (suc (n * 4))),
        pow-suc 2 (suc (suc (suc (n * 4)))),
      ))

-- A digit that stays moves to the part that is done.
moved :
    (n x v p : ℕ)
    → shift_left (n * 4) (x + 16 * v) + p ≡ shift_left ((n + 1) * 4) v + (p + shift_left (n * 4) x)
moved n x v p =
    omega (arith, shift_left-add (n * 4) x (16 * v), shift_left-16 (n * 4) v, next_shift n v)

keep_enabled-value :
    (fuel : ℕ) (l : List ℕ) (overlay_max mask n p added : ℕ)
    → length l ≤ fuel
    → n + length l ≤ overlay_max
    → overlay_max ≤ 8
    → AreNibbles l
    → p < 2 ^ (n * 4)
    → added < 4294967296
    → Avoids added l
    → keep_enabled fuel overlay_max mask n (shift_left (n * 4) (value l) + p) added
      ≡ (shift_left (n * 4) (value (keep mask l)) + p, added)
unfolding keep_enabled
keep_enabled-value zero [] m mask n p added f r b d h w a = refl
keep_enabled-value zero (x ∷ l) m mask n p added f r b d h w a = absurd (omega arith)
keep_enabled-value (suc fuel) [] m mask n p added f r b d h w a =
    let index : bit_and ((shift_left (n * 4) 0 + p) / 2 ^ (n * 4)) 15 ≡ 0 =
      rw (shift_left-div (n * 4) 0 p h) (bit_and-15 0) in
    let stop : (leb m n || (bit_and ((shift_left (n * 4) 0 + p) / 2 ^ (n * 4)) 15 == 0)) ≡ true =
      ground arith in
    rw stop refl
keep_enabled-value (suc fuel) (x ∷ l) m mask n p added f r b d h w a =
    let v : ℕ = value l in
    let index = read_nibble n x v p h (omega arith) in
    let byte = byte_pow x d.1 in
    let go_on : (leb m n || (x == 0)) ≡ false = ground arith in
    let fits : v < 2 ^ (32 - n * 4) = omega (
      arith,
      value-lt l d.2,
      pow-le-pow_right {n = 2} (omega arith) {i = 4 * length l} {j = 32 - n * 4} (omega arith),
    ) in
    rw (index, byte, go_on, has-pow mask (x - 1))
      (elim (Bool-cases (testbit mask (x - 1))) [
        | inl t ↦
            rw
              (
                t,
                clear_absent added (x - 1) w (omega arith) a.0,
                moved n x v p,
                moved n x (value (keep mask l)) p,
              )
              (keep_enabled-value fuel l m mask (n + 1) (p + shift_left (n * 4) x) added
                (omega arith) (omega arith) b d.2
                (omega (arith, next_pow n, shift_left-le (n * 4) x (omega arith))) w a.1)
        | inr g ↦
            rw (g, remove_nibble-value n x v p (omega arith) h (omega arith) fits)
              (keep_enabled-value fuel l m mask n p added (omega arith) (omega arith) b d.2 h w a.1)
      ])

length-push_new : (n k added : ℕ) (l : List ℕ) → length l ≤ length (push_new n k added l)
length-push_new zero k added l = omega arith
length-push_new (suc n) k added l = elim (Bool-cases (testbit added 0)) [
  | inl t ↦ rw t (omega (arith, length-push_new n (k + 1) (added / 2) ((k + 1) ∷ l)))
  | inr f ↦ rw f (length-push_new n (k + 1) (added / 2) l)
]

AreNibbles-push_new :
    (n k added : ℕ) (l : List ℕ) → k + n ≤ 8 → AreNibbles l → AreNibbles (push_new n k added l)
AreNibbles-push_new zero k added l b d = d
AreNibbles-push_new (suc n) k added l b d = elim (Bool-cases (testbit added 0)) [
  | inl t ↦ rw t (
      AreNibbles-push_new n (k + 1) (added / 2) ((k + 1) ∷ l) (omega arith)
        (omega arith, omega arith, d))
  | inr f ↦ rw f (AreNibbles-push_new n (k + 1) (added / 2) l (omega arith) d)
]

AreNibbles-keep : (mask : ℕ) (l : List ℕ) → AreNibbles l → AreNibbles (keep mask l)
AreNibbles-keep mask [] d = d
AreNibbles-keep mask (x ∷ l) d = elim (Bool-cases (testbit mask (x - 1))) [
  | inl t ↦ rw t (d.0, d.1, AreNibbles-keep mask l d.2)
  | inr f ↦ rw f (AreNibbles-keep mask l d.2)
]

-- Where the list that comes out fits the word, every list on the way does.
add_overlays-value :
    (n k added : ℕ) (l : List ℕ)
    → k + n ≤ 8
    → AreNibbles l
    → length (push_new n k added l) ≤ 8
    → add_overlays n k added (value l) ≡ value (push_new n k added l)
unfolding add_overlays
add_overlays-value zero k added l b d h = refl
add_overlays-value (suc n) k added l b d h = elim (Bool-cases (testbit added 0)) [
  | inl t ↦
      let h' : length (push_new n (k + 1) (added / 2) ((k + 1) ∷ l)) ≤ 8 = rw t at h in
      let short : 4 * length l ≤ 28 =
        omega (arith, length-push_new n (k + 1) (added / 2) ((k + 1) ∷ l)) in
      let room : 16 * value l < 4294967296 = omega (
        arith,
        value-lt l d,
        pow-le-pow_right {n = 2} (omega arith) {i = 4 * length l} {j = 28} short,
      ) in
      rw (has-pow added 0, t, push_nibble (k + 1) (value l) (omega arith) room)
        (add_overlays-value n (k + 1) (added / 2) ((k + 1) ∷ l) (omega arith)
          (omega arith, omega arith, d) h')
  | inr f ↦
      let h' : length (push_new n (k + 1) (added / 2) l) ≤ 8 = rw f at h in
      rw (has-pow added 0, f) (add_overlays-value n (k + 1) (added / 2) l (omega arith) d h')
]

-- How often an index occurs.
abbrev pub count : ℕ → List ℕ → ℕ
count d [] = 0
count d (x ∷ l) = let rest = count d l in if x == d then suc rest else rest

-- Each overlay of the mask occurs once and no other does.
pub record IsStack (mask : ℕ) (l : List ℕ) : Type 0 where
  pub nibbles : AreNibbles l
  pub once : (j : ℕ) → j < 8 → count (j + 1) l ≡ (if testbit mask j then 1 else 0)

count-keep :
    (mask j : ℕ) (l : List ℕ)
    → AreNibbles l
    → count (j + 1) (keep mask l) ≡ (if testbit mask j then count (j + 1) l else 0)
count-keep mask j [] d = ground arith
count-keep mask j (x ∷ l) d = elim (Bool-cases (x == j + 1)) [
  | inl t ↦
      let here : x - 1 ≡ j = ground arith in
      ground (arith, ap (testbit mask) here, count-keep mask j l d.2)
  | inr f ↦ elim (Bool-cases (testbit mask (x - 1))) [
    | inl u ↦ rw (u, f) (count-keep mask j l d.2)
    | inr u ↦ rw (u, f) (count-keep mask j l d.2)
  ]
]

count-push_new :
    (n k added j : ℕ) (l : List ℕ)
    → count (j + 1) (push_new n k added l)
      ≡ count (j + 1) l + (if leb k j && ltb j (k + n) && testbit added (j - k) then 1 else 0)
count-push_new zero k added j l = ground arith
count-push_new (suc n) k added j l =
    let l' = if testbit added 0 then (k + 1) ∷ l else l in
    let next = count-push_new n (k + 1) (added / 2) j l' in
    let front : count (j + 1) l'
        ≡ count (j + 1) l + (if testbit added 0 && (j == k) then 1 else 0) =
      elim (Bool-cases (testbit added 0)) [
        | inl t ↦ rw t (ground arith)
        | inr f ↦ rw f (omega arith)
      ] in
    let later : testbit (added / 2) (j - (k + 1)) ≡ testbit added (suc (j - (k + 1))) =
      testbit-half added (j - (k + 1)) in
    elim (Bool-cases (leb (k + 1) j)) [
      | inl t ↦
          let e : j - k ≡ suc (j - (k + 1)) = ground arith in
          rw e (ground (arith, next, front, later))
      | inr f ↦ let e : j - k ≡ 0 = ground arith in rw e (ground (arith, next, front))
    ]

-- The occurrences of the indices up to `n`.
abbrev total : ℕ → List ℕ → ℕ
total zero l = 0
total (suc n) l = total n l + count (n + 1) l

total-empty : (n : ℕ) → total n [] ≡ 0
total-empty zero = refl
total-empty (suc n) = omega (arith, total-empty n)

total-cons :
    (n x : ℕ) (l : List ℕ) → 0 < x → total n (x ∷ l) ≡ total n l + (if leb x n then 1 else 0)
total-cons zero x l h = ground arith
total-cons (suc n) x l h = ground (arith, total-cons n x l h)

length-total : (n : ℕ) (l : List ℕ) → 8 ≤ n → AreNibbles l → length l ≡ total n l
length-total n [] h d = omega (arith, total-empty n)
length-total n (x ∷ l) h d = ground (arith, total-cons n x l d.0, length-total n l h d.2)

total-le : (n : ℕ) (l : List ℕ) → ((j : ℕ) → j < n → count (j + 1) l ≤ 1) → total n l ≤ n
total-le zero l h = omega arith
total-le (suc n) l h = omega (arith, total-le n l (λ j k. h j (omega arith)), h n (omega arith))

pub IsStack-length : (mask : ℕ) (l : List ℕ) → IsStack mask l → length l ≤ 8
IsStack-length mask l s = omega (
  arith,
  length-total 8 l (omega arith) s.nibbles,
  total-le 8 l (λ j k. ground (arith, s.once j k)),
)

-- After an update the list holds each overlay that is now enabled once, and no other.
pub order_after-IsStack :
    (mask enabled : ℕ) (l : List ℕ)
    → mask < 256
    → enabled < 256
    → IsStack enabled l
    → IsStack mask (order_after mask enabled l)
order_after-IsStack mask enabled l p q s = record {
  nibbles =
      AreNibbles-push_new 8 0 (clear mask enabled) (keep mask l) (omega arith)
        (AreNibbles-keep mask l s.nibbles);
  once = λ j k. ground (
    arith,
    count-push_new 8 0 (clear mask enabled) j (keep mask l),
    count-keep mask j l s.nibbles,
    s.once j k,
    testbit-clear mask enabled j (omega arith) (omega arith),
  );
}

Avoids-of :
    (l : List ℕ) (added : ℕ)
    → AreNibbles l
    → ((j : ℕ) → j < 8 → 0 < count (j + 1) l → testbit added j ≡ false)
    → Avoids added l
Avoids-of [] added d h = tt
Avoids-of (x ∷ l) added d h =
    let same : x - 1 + 1 ≡ x = omega arith in
    (h (x - 1) (omega arith) (ground arith), Avoids-of l added d.2 (λ j k m. h j k (ground arith)))

-- On the word as on the list.
pub overlays_order_after-value :
    (overlay_max mask enabled : ℕ) (l : List ℕ)
    → length l ≤ overlay_max
    → overlay_max ≤ 8
    → mask < 256
    → enabled < 256
    → IsStack enabled l
    → overlays_order_after overlay_max mask enabled (value l) ≡ value (order_after mask enabled l)
unfolding overlays_order_after
overlays_order_after-value m mask enabled l r b p q s =
    let added = clear mask enabled in
    let short = IsStack-length enabled l s in
    let start : value l ≡ shift_left (0 * 4) (value l) + 0 = omega arith in
    let finish : shift_left (0 * 4) (value (keep mask l)) + 0 ≡ value (keep mask l) = omega arith in
    let new : (j : ℕ) → j < 8 → 0 < count (j + 1) l → testbit added j ≡ false = λ j k h.
      ground (arith, s.once j k, testbit-clear mask enabled j (omega arith) (omega arith)) in
    let kept : keep_enabled 17 m mask 0 (value l) added ≡ (value (keep mask l), added) =
      ap (λ x. keep_enabled 17 m mask 0 x added) start
      ∙ keep_enabled-value 17 l m mask 0 0 added (omega (arith, short)) (omega arith) b s.nibbles
          (omega arith) (clear-lt mask enabled (omega arith)) (Avoids-of l added s.nibbles new)
      ∙ ap (λ x. (x, added)) finish in
    rw kept (
      add_overlays-value 8 0 added (keep mask l) (omega arith) (AreNibbles-keep mask l s.nibbles)
        (IsStack-length mask _ (order_after-IsStack mask enabled l p q s)))
