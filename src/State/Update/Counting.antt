-- ===== src/State/Update/Counting.antt =====
-- The loops over `set_mods` and `clear_mods` of `xkb_state_update_key`, one modifier at a time.
use libxkbcommon.Base.{
  ℕ, zero, suc, ◌+◌, ◌*◌, ◌^◌, ◌<◌, ◌≡◌, refl, sym, ◌∙◌, arith, true, false, not, ◌&&◌, ◌||◌,
  Bool-cases, inl, inr, ==_iff, ◌==◌, if◌then◌else◌, length, get_or, length-set, get_or-set_self,
  get_or-set_ne, u32, testbit, testbit-bit_or, testbit-clear-pow, pow-double, testbit-pow,
  testbit-zero, testbit_ext, has-pow, clear-lt, bit_or-lt, has,
}
use native.Mathlib.Nat.{mod-lt}
use libxkbcommon.State.Types.{ServerState}
use libxkbcommon.State.Update.{
  count_up, count_down, not_positive, set_round, clear_round, set_loop, clear_loop,
}

-- No modifier below `i` is set in `m`.
abbrev pub NoneBelow : ℕ → ℕ → Type 0
NoneBelow i m = (j : ℕ) → j < i → testbit m j ≡ false

-- The state `t` after the loop over `set_mods` from index `i` on: every requested modifier has its
-- count raised and is a base modifier, and nothing else has changed.
pub record IsRaised (s t : ServerState) : Type 0 where
  pub counts :
      (j : ℕ)
      → j < 32
      → get_or t.mod_key_count j 0 ≡ (
          if testbit s.set_mods j
          then count_up (get_or s.mod_key_count j 0)
          else get_or s.mod_key_count j 0)
  pub base :
      (j : ℕ)
      → j < 32
      → testbit t.components.base_mods j
        ≡ (testbit s.components.base_mods j || testbit s.set_mods j)
  pub number : length t.mod_key_count ≡ length s.mod_key_count
  pub emptied : t.set_mods ≡ 0
  pub rest : t ≡ record s {
    mod_key_count = t.mod_key_count;
    components = record s.components { base_mods = t.components.base_mods };
    set_mods = t.set_mods;
  }

no_bits : (m : ℕ) → m < 4294967296 → NoneBelow 32 m → m ≡ 0
no_bits m h none = testbit_ext 32 m 0 h (omega arith) (λ i k. none i k ∙ sym (testbit-zero i))

-- The loops keep the base modifiers within 32 bits.
double_word : (bit : ℕ) → u32 (bit * 2) < 4294967296
double_word bit = mod-lt (bit * 2) (omega arith)

pub set_loop_word :
    (n i bit : ℕ) (s : ServerState)
    → bit < 4294967296
    → s.components.base_mods < 4294967296
    → (set_loop n i bit s).components.base_mods < 4294967296
unfolding set_loop
set_loop_word zero i bit s b w = w
set_loop_word (suc n) i bit s b w =
    let next : (if has s.set_mods bit then set_round i bit s else s).components.base_mods
        < 4294967296 =
      ground (arith, bit_or-lt 32 s.components.base_mods bit) in
    elim (Bool-cases (s.set_mods == 0)) [
      | inl done ↦ rw done w
      | inr go ↦ rw go (set_loop_word n (i + 1) (u32 (bit * 2)) _ (double_word bit) next)
    ]

pub clear_loop_word :
    (n i bit : ℕ) (s : ServerState)
    → s.components.base_mods < 4294967296
    → (clear_loop n i bit s).components.base_mods < 4294967296
unfolding clear_loop
clear_loop_word zero i bit s w = w
clear_loop_word (suc n) i bit s w =
    let next : (if has s.clear_mods bit then clear_round i bit s else s).components.base_mods
        < 4294967296 =
      ground (arith, clear-lt s.components.base_mods bit) in
    elim (Bool-cases (s.clear_mods == 0)) [
      | inl done ↦ rw done w
      | inr go ↦ rw go (clear_loop_word n (i + 1) (u32 (bit * 2)) _ next)
    ]

IsRaised-nothing : (s : ServerState) → s.set_mods ≡ 0 → IsRaised s s
IsRaised-nothing s e = record {
  counts = λ j k. rw (e, testbit-zero) refl;
  base = λ j k. rw (e, testbit-zero) (ground arith);
  number = refl;
  emptied = e;
  rest = refl;
}

IsRaised-round :
    (i : ℕ) (s : ServerState) {t : ServerState}
    → i < 32
    → testbit s.set_mods i ≡ true
    → length s.mod_key_count ≡ 32
    → IsRaised (set_round i (2 ^ i) s) t
    → IsRaised s t
IsRaised-round i s {t} k hit l r = record {
  counts = λ j m. ground (
    arith,
    r.counts j m,
    testbit-clear-pow s.set_mods i j k m,
    get_or-set_self s.mod_key_count i (count_up (get_or s.mod_key_count i 0)) 0 (omega arith),
    get_or-set_ne s.mod_key_count i j (count_up (get_or s.mod_key_count i 0)) 0,
  );
  base = λ j m. ground (
    arith,
    r.base j m,
    testbit-clear-pow s.set_mods i j k m,
    testbit-bit_or s.components.base_mods (2 ^ i) j,
    testbit-pow i j,
  );
  number = r.number ∙ length-set s.mod_key_count i _;
  emptied = r.emptied;
  rest = r.rest;
}

pub set_loop-IsRaised :
    (fuel i bit : ℕ) (s : ServerState)
    → fuel + i ≡ 32
    → (i < 32 → bit ≡ 2 ^ i)
    → s.set_mods < 4294967296
    → NoneBelow i s.set_mods
    → length s.mod_key_count ≡ 32
    → IsRaised s (set_loop fuel i bit s)
unfolding set_loop
set_loop-IsRaised zero i bit s e p h none l =
    IsRaised-nothing s (no_bits s.set_mods h (λ j k. none j (omega arith)))
set_loop-IsRaised (suc fuel) i bit s e p h none l = elim (Bool-cases (s.set_mods == 0)) [
  | inl empty ↦ rw empty (IsRaised-nothing s ((==_iff _ _).0 empty))
  | inr some ↦
      rw (some, p (omega arith))
        (elim (Bool-cases (testbit s.set_mods i)) [
          | inl hit ↦
              rw (has-pow, hit)
                (IsRaised-round i s (omega arith) hit l (
                  set_loop-IsRaised fuel (i + 1) (u32 (2 ^ i * 2)) (set_round i (2 ^ i) s)
                    (omega arith) (pow-double i) (clear-lt _ _ h)
                    (λ j m.
                      ground (
                        arith,
                        testbit-clear-pow s.set_mods i j (omega arith) (omega arith),
                        none j,
                      ))
                    (length-set s.mod_key_count i _ ∙ l)))
          | inr miss ↦
              rw (has-pow, miss)
                (set_loop-IsRaised fuel (i + 1) (u32 (2 ^ i * 2)) s (omega arith) (pow-double i) h
                  (λ j m. ground (arith, none j)) l)
        ])
]

-- What a release leaves of a count.
abbrev pub released : ℕ → ℕ
released n = if not_positive (count_down n) then 0 else count_down n

-- The state `t` after the loop over `clear_mods`: every modifier to clear has its count lowered,
-- a base modifier goes when its count is used up, and nothing else has changed.
pub record IsCleared (s t : ServerState) : Type 0 where
  pub counts :
      (j : ℕ)
      → j < 32
      → get_or t.mod_key_count j 0 ≡ (
          if testbit s.clear_mods j
          then released (get_or s.mod_key_count j 0)
          else get_or s.mod_key_count j 0)
  pub base :
      (j : ℕ)
      → j < 32
      → testbit t.components.base_mods j ≡ (
          testbit s.components.base_mods j
          && not (testbit s.clear_mods j && not_positive (count_down (get_or s.mod_key_count j 0))))
  pub number : length t.mod_key_count ≡ length s.mod_key_count
  pub emptied : t.clear_mods ≡ 0
  pub rest : t ≡ record s {
    mod_key_count = t.mod_key_count;
    components = record s.components { base_mods = t.components.base_mods };
    clear_mods = t.clear_mods;
  }

IsCleared-nothing : (s : ServerState) → s.clear_mods ≡ 0 → IsCleared s s
IsCleared-nothing s e = record {
  counts = λ j k. rw (e, testbit-zero) refl;
  base = λ j k. rw (e, testbit-zero) (ground arith);
  number = refl;
  emptied = e;
  rest = refl;
}

IsCleared-round :
    (i : ℕ) (s : ServerState) {t : ServerState}
    → i < 32
    → testbit s.clear_mods i ≡ true
    → length s.mod_key_count ≡ 32
    → IsCleared (clear_round i (2 ^ i) s) t
    → IsCleared s t
IsCleared-round i s {t} k hit l r = record {
  counts = λ j m. ground (
    arith,
    r.counts j m,
    testbit-clear-pow s.clear_mods i j k m,
    get_or-set_self s.mod_key_count i (released (get_or s.mod_key_count i 0)) 0 (omega arith),
    get_or-set_ne s.mod_key_count i j (released (get_or s.mod_key_count i 0)) 0,
  );
  base = λ j m. ground (
    arith,
    r.base j m,
    testbit-clear-pow s.clear_mods i j k m,
    testbit-clear-pow s.components.base_mods i j k m,
    get_or-set_ne s.mod_key_count i j (released (get_or s.mod_key_count i 0)) 0,
  );
  number = r.number ∙ length-set s.mod_key_count i _;
  emptied = r.emptied;
  rest = r.rest;
}

pub clear_loop-IsCleared :
    (fuel i bit : ℕ) (s : ServerState)
    → fuel + i ≡ 32
    → (i < 32 → bit ≡ 2 ^ i)
    → s.clear_mods < 4294967296
    → NoneBelow i s.clear_mods
    → length s.mod_key_count ≡ 32
    → IsCleared s (clear_loop fuel i bit s)
unfolding clear_loop
clear_loop-IsCleared zero i bit s e p h none l =
    IsCleared-nothing s (no_bits s.clear_mods h (λ j k. none j (omega arith)))
clear_loop-IsCleared (suc fuel) i bit s e p h none l = elim (Bool-cases (s.clear_mods == 0)) [
  | inl empty ↦ rw empty (IsCleared-nothing s ((==_iff _ _).0 empty))
  | inr some ↦
      rw (some, p (omega arith))
        (elim (Bool-cases (testbit s.clear_mods i)) [
          | inl hit ↦
              rw (has-pow, hit)
                (IsCleared-round i s (omega arith) hit l (
                  clear_loop-IsCleared fuel (i + 1) (u32 (2 ^ i * 2)) (clear_round i (2 ^ i) s)
                    (omega arith) (pow-double i) (clear-lt _ _ h)
                    (λ j m. ground (
                      arith,
                      testbit-clear-pow s.clear_mods i j (omega arith) (omega arith),
                      none j,
                    ))
                    (length-set s.mod_key_count i _ ∙ l)))
          | inr miss ↦
              rw (has-pow, miss)
                (clear_loop-IsCleared fuel (i + 1) (u32 (2 ^ i * 2)) s (omega arith) (pow-double i)
                  h (λ j m. ground (arith, none j)) l)
        ])
]
