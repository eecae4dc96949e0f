-- ===== src/Atom/Room.antt =====
-- The index has a free position while it holds fewer atoms than it has positions but 0, and the
-- probing loop comes to every position.
use libxkbcommon.Base.{
  ℕ, zero, suc, ◌+◌, ◌-◌, ◌*◌, ◌/◌, ◌%◌, ◌^◌, ◌<◌, ◌≡◌, ◌≢◌, refl, sym, ap, ◌∙◌, arith, Bool-cases,
  inl, inr, List, [], ◌∷◌, ◌==◌, leb, if◌then◌else◌, length, get_or, set, replicate, bit_and,
}
use native.Mathlib.Nat.{div-add-mod, mod-lt, mod-eq_of_lt, add-mul-mod_self_left, one-le-pow}
use libxkbcommon.Digits.{shift_left, shift_left-mul, bit_and-low}
use libxkbcommon.Atom.{index_pos}
use libxkbcommon.Atom.Probing.{HasVacant}

bit_and-ones : (w x : ℕ) → bit_and x (2 ^ w - 1) ≡ x % 2 ^ w
bit_and-ones w x =
    let split : x ≡ shift_left w (x / 2 ^ w) + x % 2 ^ w =
      omega (arith, shift_left-mul w (x / 2 ^ w), div-add-mod x (2 ^ w)) in
    ap (λ y. bit_and y (2 ^ w - 1)) split
    ∙ bit_and-low w (x / 2 ^ w) (x % 2 ^ w) (mod-lt x (one-le-pow w 2 (omega arith)))

pub index_pos-lt : (w hash i : ℕ) → index_pos (2 ^ w) hash i < 2 ^ w
index_pos-lt w hash i =
    rw (bit_and-ones w (hash + i)) (mod-lt (hash + i) (one-le-pow w 2 (omega arith)))

-- Some round comes to position `k`.
pub comes_to : (w hash k : ℕ) → k < 2 ^ w → (d : ℕ) × (d < 2 ^ w) × (index_pos (2 ^ w) hash d ≡ k)
comes_to w hash k b =
    let size : ℕ = 2 ^ w in
    let h : ℕ = hash % size in
    let q : ℕ = hash / size in
    let split = div-add-mod hash size in
    let low = mod-lt hash (one-le-pow w 2 (omega arith)) in
    elim (Bool-cases (leb h k)) [
      | inl t ↦
          let e : hash + (k - h) ≡ k + size * q = ground arith in
          (
            k - h,
            ground arith,
            bit_and-ones w (hash + (k - h))
                ∙ ap (λ x. x % size) e
                ∙ add-mul-mod_self_left k size q
                ∙ mod-eq_of_lt b,
          )
      | inr f ↦
          let e : hash + (k + size - h) ≡ k + size * suc q = ground arith in
          (
            k + size - h,
            ground arith,
            bit_and-ones w (hash + (k + size - h))
                ∙ ap (λ x. x % size) e
                ∙ add-mul-mod_self_left k size (suc q)
                ∙ mod-eq_of_lt b,
          )
    ]

-- The positions that are not free.
abbrev pub taken : List ℕ → ℕ
taken [] = 0
taken (x ∷ l) = let rest = taken l in if x == 0 then rest else suc rest

pub taken-set :
    (l : List ℕ) (pos new : ℕ)
    → get_or l pos 0 ≡ 0
    → pos < length l
    → new ≢ 0
    → taken (set l pos new) ≡ suc (taken l)
taken-set [] pos new f b q = absurd (omega arith)
taken-set (x ∷ l) zero new f b q = ground arith
taken-set (x ∷ l) (suc pos) new f b q = ground (arith, taken-set l pos new f (omega arith) q)

pub taken-replicate : (n : ℕ) → taken (replicate n 0) ≡ 0
taken-replicate zero = refl
taken-replicate (suc n) = taken-replicate n

pub length-replicate : (n a : ℕ) → length (replicate n a) ≡ n
length-replicate zero a = refl
length-replicate (suc n) a = ap suc (length-replicate n a)

some_free : (l : List ℕ) → taken l < length l → (k : ℕ) × (k < length l) × (get_or l k 0 ≡ 0)
some_free [] h = absurd (omega arith)
some_free (x ∷ l) h = elim (Bool-cases (x == 0)) [
  | inl t ↦ (0, omega arith, ground arith)
  | inr f ↦ let (k, b, e) = some_free l (ground arith) in (suc k, omega arith, e)
]

HasVacant-at :
    (index : List ℕ) (size hash n i d : ℕ)
    → d < n
    → index_pos size hash (i + d) ≢ 0
    → get_or index (index_pos size hash (i + d)) 0 ≡ 0
    → HasVacant index size hash i n
HasVacant-at index size hash zero i d b p f = absurd (omega arith)
HasVacant-at index size hash (suc n) i zero b p f =
    let e : i + 0 ≡ i = omega arith in inl (rw e at p, rw e at f)
HasVacant-at index size hash (suc n) i (suc d) b p f =
    let e : i + suc d ≡ i + 1 + d = omega arith in
    inr (HasVacant-at index size hash n (i + 1) d (omega arith) (rw e at p) (rw e at f))

zero_ne_suc : (k : ℕ) → 0 ≢ suc k
zero_ne_suc k e = absurd (ground arith)

-- With fewer atoms than positions but 0, every probe comes to a free position.
pub HasVacant-of_room :
    (index : List ℕ) (w hash : ℕ)
    → length index ≡ 2 ^ w
    → taken index + 1 < length index
    → HasVacant index (2 ^ w) hash 0 (2 ^ w)
HasVacant-of_room [] w hash l r = absurd (omega arith)
HasVacant-of_room (x ∷ index) w hash l r =
    let (k, b, f) = some_free index (ground arith) in
    let (d, bound, at) = comes_to w hash (suc k) (omega arith) in
    let none_passed : 0 + d ≡ d = omega arith in
    let here : index_pos (2 ^ w) hash (0 + d) ≡ suc k =
      ap (λ n. index_pos (2 ^ w) hash n) none_passed ∙ at in
    HasVacant-at (x ∷ index) (2 ^ w) hash (2 ^ w) 0 d bound
      (λ e. absurd (zero_ne_suc k (sym e ∙ here))) (ap (λ p. get_or (x ∷ index) p 0) here ∙ f)
