-- ===== src/Machine/Overlays/Digits.antt =====
-- The nibbles of a word of 32 bits as a list, the lowest first: reading the first, taking one out
-- and putting one in front, by the masks and shifts of `machine_update_overlays`.
use libxkbcommon.Base.{
  ℕ, suc, ◌+◌, ◌-◌, ◌*◌, ◌/◌, ◌^◌, ◌≤◌, ◌<◌, ◌≡◌, arith, List, [], ◌∷◌, length, bit_and, bit_or,
  u32, not32, pow-lt, ap, ◌∙◌,
}
use native.Mathlib.Nat.{pow-suc}
use libxkbcommon.Digits.{
  shift_left, shift_left-add, shift_left-16, shift_left-le, shift_left-div, shift_left-ones,
  bit_or-shift_left, bit_and-15, bit_and-low, bit_and-high, low-bit_or,
}
use libxkbcommon.Machine.Overlays.{remove_nibble}

-- The number with the digits `l` to the base 16.
abbrev pub value : List ℕ → ℕ
value [] = 0
value (d ∷ l) = d + 16 * value l

abbrev pub AreNibbles : List ℕ → Type 0
AreNibbles [] = Unit
AreNibbles (d ∷ l) = (0 < d) × (d ≤ 8) × AreNibbles l

pub value-lt : (l : List ℕ) → AreNibbles l → value l < 2 ^ (4 * length l)
value-lt [] h = omega arith
value-lt (d ∷ l) h =
    let e : 4 * length (d ∷ l) ≡ suc (suc (suc (suc (4 * length l)))) = omega arith in
    rw e (
      omega (
        arith,
        value-lt l h.2,
        pow-suc 2 (4 * length l),
        pow-suc 2 (suc (4 * length l)),
        pow-suc 2 (suc (suc (4 * length l))),
        pow-suc 2 (suc (suc (suc (4 * length l)))),
      ))

module _ (w u d v p : ℕ) (below : p < 2 ^ w) (nibble : d ≤ 15) (fits : v < 2 ^ u) where
  order-halves : shift_left w (d + 16 * v) ≡ shift_left w d + 16 * shift_left w v
  order-halves = shift_left-add w d (16 * v) ∙ ap (λ x. shift_left w d + x) (shift_left-16 w v)

  shifted : (shift_left w (d + 16 * v) + p) / 16 ≡ shift_left w v + (shift_left w d + p) / 16
  shifted = omega (arith, order-halves)

  take_out :
      bit_or
        (bit_and (shift_left w (d + 16 * v) + p) (2 ^ w - 1))
        (bit_and ((shift_left w (d + 16 * v) + p) / 16) (shift_left w (2 ^ u - 1)))
      ≡ p + shift_left w v
  take_out =
      rw
        (
          shifted,
          bit_and-low w (d + 16 * v) p below,
          bit_and-high w u v ((shift_left w d + p) / 16) (omega (arith, shift_left-le w d nibble))
              fits,
        )
        (low-bit_or w v p below)

-- The overlay index at nibble `n` is the next digit.
pub read_nibble :
    (n d v p : ℕ)
    → p < 2 ^ (n * 4)
    → d ≤ 15
    → bit_and ((shift_left (n * 4) (d + 16 * v) + p) / 2 ^ (n * 4)) 15 ≡ d
read_nibble n d v p below nibble =
    rw (shift_left-div (n * 4) (d + 16 * v) p below) (omega (arith, bit_and-15 (d + 16 * v)))

-- The digit at nibble `n` taken out of 32 bits.
pub remove_nibble-value :
    (n d v p : ℕ)
    → n ≤ 7
    → p < 2 ^ (n * 4)
    → d ≤ 15
    → v < 2 ^ (32 - n * 4)
    → remove_nibble (shift_left (n * 4) (d + 16 * v) + p) n ≡ shift_left (n * 4) v + p
remove_nibble-value n d v p small below nibble fits =
    let w = n * 4 in
    let u = 32 - n * 4 in
    let head : u32 (2 ^ w) - 1 ≡ 2 ^ w - 1 = omega (arith, pow-lt w (omega arith)) in
    let ones = shift_left-ones w u 32 (omega arith) in
    let rest : not32 (2 ^ w - 1) ≡ shift_left w (2 ^ u - 1) = omega (arith, ones) in
    rw (head, rest) (omega (arith, take_out w u d v p below nibble fits))

-- A digit put in front, where the word has room.
pub push_nibble : (d v : ℕ) → d ≤ 15 → 16 * v < 4294967296 → bit_or (u32 (v * 16)) d ≡ d + 16 * v
push_nibble d v nibble room =
    let e : u32 (v * 16) ≡ shift_left 4 v = omega arith in
    rw e (omega (arith, bit_or-shift_left 4 v d (omega arith)))
