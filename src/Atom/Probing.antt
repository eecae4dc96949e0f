-- ===== src/Atom/Probing.antt =====
-- Linear probing finds every string.
use libxkbcommon.Base.{
  ℕ, zero, suc, ◌+◌, ◌<◌, ◌≡◌, ◌≢◌, ◌⊎◌, refl, sym, ap, ◌∙◌, arith, true, false, Bool-cases, inl,
  inr, List, [], ◌∷◌, ◌==◌, length, get_or, set, get_or-set_self, get_or-set_ne,
}
use libxkbcommon.Atom.{AtomTable, same_text, index_pos, existing, vacant, is_text, probe, place}

-- From round `i` on, and within `n` rounds, the positions lead to `atom` before any free one.
abbrev pub Reaches : List ℕ → ℕ → ℕ → ℕ → ℕ → ℕ → Type 0
Reaches index size hash atom i zero = ⊥
Reaches index size hash atom i (suc n) =
    ((index_pos size hash i ≢ 0) × (get_or index (index_pos size hash i) 0 ≡ atom))
    ⊎ (((index_pos size hash i ≡ 0) ⊎ (get_or index (index_pos size hash i) 0 ≢ 0))
        × Reaches index size hash atom (i + 1) n)

pub same_text_refl : (s : List ℕ) → same_text s s ≡ true
same_text_refl [] = refl
same_text_refl (x ∷ s) = ground (arith, same_text_refl s)

pub same_text-eq : (s t : List ℕ) → same_text s t ≡ true → s ≡ t
same_text-eq [] [] h = refl
same_text-eq [] (y ∷ t) h = absurd (ground arith)
same_text-eq (x ∷ s) [] h = absurd (ground arith)
same_text-eq (x ∷ s) (y ∷ t) h = elim (Bool-cases (x == y)) [
  | inl e ↦
      let head : x ≡ y = ground arith in
      let tail = same_text-eq s t (ground arith) in rw (head, tail) refl
  | inr n ↦ absurd (ground arith)
]

-- No other atom has the string.
abbrev pub IsUnique : AtomTable → ℕ → List ℕ → Type 0
IsUnique table atom string = (b : ℕ) → b ≢ 0 → is_text table b string ≡ true → b ≡ atom

-- A probe for a string that has an atom finds it.
pub probe-finds :
    (n : ℕ) (table : AtomTable) (string : List ℕ) (hash atom i : ℕ)
    → atom ≢ 0
    → is_text table atom string ≡ true
    → IsUnique table atom string
    → Reaches table.index table.index_size hash atom i n
    → probe n table string hash i ≡ existing atom
unfolding probe
probe-finds zero table string hash atom i p t u r = absurd r
probe-finds (suc n) table string hash atom i p t u (inl (pos, at)) =
    let away : (index_pos table.index_size hash i == 0) ≡ false = ground arith in
    let live : (atom == 0) ≡ false = ground arith in rw (away, at, live, t) refl
probe-finds (suc n) table string hash atom i p t u (inr (inl zero_pos, r)) =
    let skip : (index_pos table.index_size hash i == 0) ≡ true = ground arith in
    rw skip (probe-finds n table string hash atom (i + 1) p t u r)
probe-finds (suc n) table string hash atom i p t u (inr (inr taken, r)) =
    let found : ℕ = get_or table.index (index_pos table.index_size hash i) 0 in
    let next = probe-finds n table string hash atom (i + 1) p t u r in
    let busy : (found == 0) ≡ false = ground arith in
    elim (Bool-cases (index_pos table.index_size hash i == 0)) [
      | inl skip ↦ rw skip next
      | inr away ↦ elim (Bool-cases (is_text table found string)) [
        | inl hit ↦ rw (away, busy, hit) (ap existing (u found taken hit))
        | inr miss ↦ rw (away, busy, miss) next
      ]
    ]

still_taken :
    (index : List ℕ) (k pos new : ℕ)
    → pos < length index
    → new ≢ 0
    → get_or index k 0 ≢ 0
    → get_or (set index pos new) k 0 ≢ 0
still_taken index k pos new b q t = elim (Bool-cases (pos == k)) [
  | inl e ↦ let here : pos ≡ k = ground arith in rw (← here, get_or-set_self index pos new 0 b) q
  | inr n ↦ rw (get_or-set_ne index pos k new 0 (λ e. absurd (ground arith))) t
]

-- Filling a free position keeps what is reached.
pub Reaches-set :
    (n : ℕ) (index : List ℕ) (size hash atom i pos new : ℕ)
    → atom ≢ 0
    → get_or index pos 0 ≡ 0
    → pos < length index
    → new ≢ 0
    → Reaches index size hash atom i n
    → Reaches (set index pos new) size hash atom i n
Reaches-set zero index size hash atom i pos new a f b q r = r
Reaches-set (suc n) index size hash atom i pos new a f b q (inl (p, at)) = inl (
  p,
  get_or-set_ne index pos (index_pos size hash i) new 0 (λ e. absurd (a (sym at ∙ rw (← e) f)))
      ∙ at,
)
Reaches-set (suc n) index size hash atom i pos new a f b q (inr (inl z, r)) =
    inr (inl z, Reaches-set n index size hash atom (i + 1) pos new a f b q r)
Reaches-set (suc n) index size hash atom i pos new a f b q (inr (inr t, r)) =
    let kept : get_or (set index pos new) (index_pos size hash i) 0 ≢ 0 =
      still_taken index (index_pos size hash i) pos new b q t in
    inr (inr kept, Reaches-set n index size hash atom (i + 1) pos new a f b q r)

-- From round `i` on, and within `n` rounds, some position is free.
abbrev pub HasVacant : List ℕ → ℕ → ℕ → ℕ → ℕ → Type 0
HasVacant index size hash i zero = ⊥
HasVacant index size hash i (suc n) =
    ((index_pos size hash i ≢ 0) × (get_or index (index_pos size hash i) 0 ≡ 0))
    ⊎ HasVacant index size hash (i + 1) n

-- No atom has the string.
abbrev pub IsAbsent : AtomTable → List ℕ → Type 0
IsAbsent table string = (b : ℕ) → b ≢ 0 → is_text table b string ≡ false

-- The first free position, for the atom `new`.
pub record IsVacancy (index : List ℕ) (size hash new i n pos : ℕ) : Type 0 where
  pub free : get_or index pos 0 ≡ 0
  pub away : pos ≢ 0
  pub placed : place n index size hash new i ≡ set index pos new
  pub reached : Reaches (set index pos new) size hash new i n
  pub probed :
      (strings : List (List ℕ)) (string : List ℕ)
      → IsAbsent (record { index = index; index_size = size; strings = strings }) string
      → probe n (record { index = index; index_size = size; strings = strings }) string hash i
        ≡ vacant pos

module _ (index : List ℕ) (size hash new : ℕ) (live : new ≢ 0)
    (bound : (i : ℕ) → index_pos size hash i < length index) where
  IsVacancy-here :
      (i n : ℕ)
      → index_pos size hash i ≢ 0
      → get_or index (index_pos size hash i) 0 ≡ 0
      → IsVacancy index size hash new i (suc n) (index_pos size hash i)
  unfolding place probe
  IsVacancy-here i n p f =
      let away : (index_pos size hash i == 0) ≡ false = ground arith in
      record {
        free = f;
        away = p;
        placed = rw (away, f) refl;
        reached = inl (p, get_or-set_self index (index_pos size hash i) new 0 (bound i));
        probed = λ strings string absent. rw (away, f) refl;
      }

  IsVacancy-later :
      (i n pos : ℕ)
      → (index_pos size hash i ≡ 0) ⊎ (get_or index (index_pos size hash i) 0 ≢ 0)
      → pos < length index
      → IsVacancy index size hash new (i + 1) n pos
      → IsVacancy index size hash new i (suc n) pos
  unfolding place probe
  IsVacancy-later i n pos (inl z) b v =
      let skip : (index_pos size hash i == 0) ≡ true = ground arith in
      record {
        free = v.free;
        away = v.away;
        placed = rw skip v.placed;
        reached = inr (inl z, v.reached);
        probed = λ strings string absent. rw skip (v.probed strings string absent);
      }
  IsVacancy-later i n pos (inr t) b v =
      let busy : (get_or index (index_pos size hash i) 0 == 0) ≡ false = ground arith in
      let kept = still_taken index (index_pos size hash i) pos new b live t in
      elim (Bool-cases (index_pos size hash i == 0)) [
        | inl skip ↦ record {
          free = v.free;
          away = v.away;
          placed = rw skip v.placed;
          reached = inr (inr kept, v.reached);
          probed = λ strings string absent. rw skip (v.probed strings string absent);
        }
        | inr far ↦ record {
          free = v.free;
          away = v.away;
          placed = rw (far, busy) v.placed;
          reached = inr (inr kept, v.reached);
          probed = λ strings string absent.
              rw (far, busy, absent (get_or index (index_pos size hash i) 0) t)
                (v.probed strings string absent);
        }
      ]

  -- Where some position is free, the loops find the first one.
  pub vacancy :
      (n i : ℕ)
      → HasVacant index size hash i n
      → (pos : ℕ) × (pos < length index) × IsVacancy index size hash new i n pos
  vacancy zero i h = absurd h
  vacancy (suc n) i (inl (p, f)) = (index_pos size hash i, bound i, IsVacancy-here i n p f)
  vacancy (suc n) i (inr h) =
      let (pos, b, v) = vacancy n (i + 1) h in
      elim (Bool-cases (index_pos size hash i == 0)) [
        | inl skip ↦ (pos, b, IsVacancy-later i n pos (inl (ground arith)) b v)
        | inr far ↦ elim (Bool-cases (get_or index (index_pos size hash i) 0 == 0)) [
          | inl f ↦ (
            index_pos size hash i,
            bound i,
            IsVacancy-here i n (λ e. absurd (ground arith)) (ground arith),
          )
          | inr t ↦ (pos, b, IsVacancy-later i n pos (inr (λ e. absurd (ground arith))) b v)
        ]
      ]
