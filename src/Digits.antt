-- ===== src/Digits.antt =====
-- Masks and shifts as arithmetic: the low digits of a number and the high ones.
use libxkbcommon.Base.{
  ℕ, zero, suc, ◌+◌, ◌-◌, ◌*◌, ◌/◌, ◌%◌, ◌^◌, ◌≤◌, ◌<◌, ◌≡◌, refl, ap, ◌∙◌, arith, bit_and, bit_or,
  bit_and-halves, bit_or-halves,
}
use native.Mathlib.Nat.{pow-suc, one-le-pow, add-mul-div_left, div-eq_of_lt}

abbrev pub shift_left : ℕ → ℕ → ℕ
shift_left zero a = a
shift_left (suc w) a = 2 * shift_left w a

bit_or-zero : (bound a : ℕ) → a ≤ bound → bit_or a 0 ≡ a
bit_or-zero zero a h = let none : a ≡ 0 = omega arith in rw none refl
bit_or-zero (suc bound) zero h = refl
bit_or-zero (suc bound) (suc a) h =
    omega (arith, bit_or-halves (suc a) 0, bit_or-zero bound (suc a / 2) (omega arith))

bit_and-zero : (bound a : ℕ) → a ≤ bound → bit_and a 0 ≡ 0
bit_and-zero zero a h = let none : a ≡ 0 = omega arith in rw none refl
bit_and-zero (suc bound) zero h = refl
bit_and-zero (suc bound) (suc a) h =
    omega (arith, bit_and-halves (suc a) 0, bit_and-zero bound (suc a / 2) (omega arith))

-- `high | low` adds digits that do not overlap.
pub bit_or-shift_left : (w a y : ℕ) → y < 2 ^ w → bit_or (shift_left w a) y ≡ shift_left w a + y
bit_or-shift_left zero a y h =
    let none : y ≡ 0 = omega arith in rw none (omega (arith, bit_or-zero a a (omega arith)))
bit_or-shift_left (suc w) a y h =
    let half : 2 * shift_left w a / 2 ≡ shift_left w a = omega arith in
    ground (
      arith,
      bit_or-halves (2 * shift_left w a) y,
      half,
      bit_or-shift_left w a (y / 2) (omega (arith, pow-suc 2 w)),
    )

-- `x & high` keeps the high digits.
pub bit_and-shift_left :
    (w a y b : ℕ)
    → y < 2 ^ w
    → bit_and (shift_left w a + y) (shift_left w b) ≡ shift_left w (bit_and a b)
bit_and-shift_left zero a y b h = let none : a + y ≡ a = omega arith in rw none refl
bit_and-shift_left (suc w) a y b h =
    let half : (2 * shift_left w a + y) / 2 ≡ shift_left w a + y / 2 = omega arith in
    let half' : 2 * shift_left w b / 2 ≡ shift_left w b = omega arith in
    ground (
      arith,
      bit_and-halves (2 * shift_left w a + y) (2 * shift_left w b),
      half,
      half',
      bit_and-shift_left w a (y / 2) b (omega (arith, pow-suc 2 w)),
    )

-- `x & 0x07`, `x & 0x0f`, `x & 0x1f` and `x & 0x3f` are remainders.
bit_and-1 : (x : ℕ) → bit_and x 1 ≡ x % 2
bit_and-1 x = ground (arith, bit_and-halves x 1, bit_and-zero (x / 2) (x / 2) (omega arith))

bit_and-3 : (x : ℕ) → bit_and x 3 ≡ x % 4
bit_and-3 x = ground (arith, bit_and-halves x 3, bit_and-1 (x / 2))

pub bit_and-7 : (x : ℕ) → bit_and x 7 ≡ x % 8
bit_and-7 x = ground (arith, bit_and-halves x 7, bit_and-3 (x / 2))

pub bit_and-15 : (x : ℕ) → bit_and x 15 ≡ x % 16
bit_and-15 x = ground (arith, bit_and-halves x 15, bit_and-7 (x / 2))

pub bit_and-31 : (x : ℕ) → bit_and x 31 ≡ x % 32
bit_and-31 x = ground (arith, bit_and-halves x 31, bit_and-15 (x / 2))

pub bit_and-63 : (x : ℕ) → bit_and x 63 ≡ x % 64
bit_and-63 x = ground (arith, bit_and-halves x 63, bit_and-31 (x / 2))

-- `x & ones` reads the low digits.
pub bit_and-low : (w a y : ℕ) → y < 2 ^ w → bit_and (shift_left w a + y) (2 ^ w - 1) ≡ y
bit_and-low zero a y h =
    let none : y ≡ 0 = omega arith in rw none (bit_and-zero (a + 0) (a + 0) (omega arith))
bit_and-low (suc w) a y h =
    let positive = one-le-pow w 2 in
    let double = pow-suc 2 w in
    let half : (2 * shift_left w a + y) / 2 ≡ shift_left w a + y / 2 = omega arith in
    let half' : (2 ^ suc w - 1) / 2 ≡ 2 ^ w - 1 = omega (arith, double, positive) in
    let odd : (2 ^ suc w - 1) % 2 ≡ 1 = omega (arith, double, positive) in
    let next = bit_and-low w a (y / 2) (omega (arith, double)) in
    ground (arith, bit_and-halves (2 * shift_left w a + y) (2 ^ suc w - 1), half, half', odd, next)

pub shift_left-zero : (w : ℕ) → shift_left w 0 ≡ 0
shift_left-zero zero = refl
shift_left-zero (suc w) = omega (arith, shift_left-zero w)

pub shift_left-add : (w a b : ℕ) → shift_left w (a + b) ≡ shift_left w a + shift_left w b
shift_left-add zero a b = refl
shift_left-add (suc w) a b = omega (arith, shift_left-add w a b)

pub shift_left-16 : (w a : ℕ) → shift_left w (16 * a) ≡ 16 * shift_left w a
shift_left-16 zero a = refl
shift_left-16 (suc w) a = omega (arith, shift_left-16 w a)

pub shift_left-le : (w a : ℕ) → a ≤ 15 → shift_left w a ≤ 15 * 2 ^ w
shift_left-le zero a h = omega arith
shift_left-le (suc w) a h = omega (arith, pow-suc 2 w, shift_left-le w a h)

bit_and_all : (u a : ℕ) → a < 2 ^ u → bit_and a (2 ^ u - 1) ≡ a
bit_and_all u a h =
    let e : a ≡ shift_left u 0 + a = omega (arith, shift_left-zero u) in
    ap (λ x. bit_and x (2 ^ u - 1)) e ∙ bit_and-low u 0 a h

-- `x & ~ones` keeps the high digits.
pub bit_and-high :
    (w u a y : ℕ)
    → y < 2 ^ w
    → a < 2 ^ u
    → bit_and (shift_left w a + y) (shift_left w (2 ^ u - 1)) ≡ shift_left w a
bit_and-high w u a y h k =
    bit_and-shift_left w a y (2 ^ u - 1) h ∙ ap (shift_left w) (bit_and_all u a k)

zero-bit_or : (bound a : ℕ) → a ≤ bound → bit_or 0 a ≡ a
zero-bit_or zero a h = let none : a ≡ 0 = omega arith in rw none refl
zero-bit_or (suc bound) zero h = refl
zero-bit_or (suc bound) (suc a) h =
    omega (arith, bit_or-halves 0 (suc a), zero-bit_or bound (suc a / 2) (omega arith))

pub low-bit_or : (w a y : ℕ) → y < 2 ^ w → bit_or y (shift_left w a) ≡ y + shift_left w a
low-bit_or zero a y h =
    let none : y ≡ 0 = omega arith in rw none (zero-bit_or a a (omega arith) ∙ omega arith)
low-bit_or (suc w) a y h =
    let half : 2 * shift_left w a / 2 ≡ shift_left w a = omega arith in
    ground (
      arith,
      bit_or-halves y (2 * shift_left w a),
      half,
      low-bit_or w a (y / 2) (omega (arith, pow-suc 2 w)),
    )

pub shift_left-mul : (w a : ℕ) → shift_left w a ≡ 2 ^ w * a
shift_left-mul zero a = omega arith
shift_left-mul (suc w) a = rw (pow-suc 2 w, shift_left-mul w a) (omega arith)

pub shift_left-div : (w a y : ℕ) → y < 2 ^ w → (shift_left w a + y) / 2 ^ w ≡ a
shift_left-div w a y h =
    let e : shift_left w a + y ≡ y + 2 ^ w * a = omega (arith, shift_left-mul w a) in
    rw e (omega (arith, add-mul-div_left y a (one-le-pow w 2 (omega arith)), div-eq_of_lt h))

-- All ones, as the low ones and the others.
pub shift_left-ones : (w u t : ℕ) → t ≡ w + u → shift_left w (2 ^ u - 1) + (2 ^ w - 1) ≡ 2 ^ t - 1
shift_left-ones zero u t e = let e' : t ≡ u = omega arith in rw e' (omega arith)
shift_left-ones (suc w) u zero e = absurd (omega arith)
shift_left-ones (suc w) u (suc t) e = omega (
  arith,
  pow-suc 2 w,
  pow-suc 2 t,
  one-le-pow w 2,
  one-le-pow t 2,
  shift_left-ones w u t (omega arith),
)
