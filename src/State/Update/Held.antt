-- ===== src/State/Update/Held.antt =====
-- The base modifiers and the counts of keys that hold them, across one event of
-- `xkb_state_update_key`.
use libxkbcommon.Base.{
  ℕ, suc, ◌+◌, ◌-◌, ◌<◌, ◌≡◌, refl, ap, ◌∙◌, arith, Bool, not, ◌==◌, if◌then◌else◌, length, get_or,
  testbit,
}
use libxkbcommon.State.Types.{ServerState}
use libxkbcommon.State.Update.{set_loop, apply_mod_requests}
use libxkbcommon.State.Update.Counting.{
  IsRaised, IsCleared, set_loop-IsRaised, clear_loop-IsCleared,
}

abbrev pub count_of : ServerState → ℕ → ℕ
count_of s j = get_or s.mod_key_count j 0

abbrev pub bit_value : Bool → ℕ
bit_value b = if b then 1 else 0

-- A modifier is a base modifier exactly while some key holds it, and no count comes near the
-- limit of `int16_t` within `spare` more events.
pub record IsHeld (spare : ℕ) (s : ServerState) : Type 0 where
  pub number : length s.mod_key_count ≡ 32
  pub base : (j : ℕ) → j < 32 → testbit s.components.base_mods j ≡ not (count_of s j == 0)
  pub small : (j : ℕ) → j < 32 → count_of s j + spare < 32768

abbrev after_set : ServerState → ServerState
after_set s = set_loop 32 0 1 s

module _ (s : ServerState) (set_word : s.set_mods < 4294967296)
    (clear_word : s.clear_mods < 4294967296) where
  pub set-IsRaised : length s.mod_key_count ≡ 32 → IsRaised s (after_set s)
  set-IsRaised l =
      set_loop-IsRaised 32 0 1 s refl (λ k. refl) set_word (λ j k. absurd (omega arith)) l

  same_clear : length s.mod_key_count ≡ 32 → (after_set s).clear_mods ≡ s.clear_mods
  same_clear l = ap (λ (t : ServerState). t.clear_mods) (set-IsRaised l).rest

  pub clear-IsCleared : length s.mod_key_count ≡ 32 → IsCleared (after_set s) (apply_mod_requests s)
  unfolding apply_mod_requests
  clear-IsCleared l =
      clear_loop-IsCleared 32 0 1 (after_set s) refl (λ k. refl) (rw (same_clear l) clear_word)
        (λ j k. absurd (omega arith)) ((set-IsRaised l).number ∙ l)

  -- Where the base modifiers are exactly those with a count, below the limit of `int16_t`, and the
  -- requests are masks of 32 bits: each count goes up by one if its modifier was requested to be
  -- set, and then down by one, not below zero, if it was requested to be cleared.
  pub count_after :
      (spare j : ℕ)
      → IsHeld (suc spare) s
      → j < 32
      → count_of (apply_mod_requests s) j
        ≡ count_of s j + bit_value (testbit s.set_mods j) - bit_value (testbit s.clear_mods j)
  count_after spare j v k = ground (
    arith,
    (set-IsRaised v.number).counts j k,
    (clear-IsCleared v.number).counts j k,
    v.small j k,
    ap (λ m. testbit m j) (same_clear v.number),
  )

  -- Where the base modifiers are exactly those with a count, and the requests are masks of 32
  -- bits, they still are after the loops that carry out the requests, which bring each count up by
  -- at most one.
  pub apply_mod_requests-IsHeld :
      (spare : ℕ) → IsHeld (suc spare) s → IsHeld spare (apply_mod_requests s)
  apply_mod_requests-IsHeld spare v = record {
    number = (clear-IsCleared v.number).number ∙ (set-IsRaised v.number).number ∙ v.number;
    base = λ j k. ground (
      arith,
      (set-IsRaised v.number).counts j k,
      (set-IsRaised v.number).base j k,
      (clear-IsCleared v.number).counts j k,
      (clear-IsCleared v.number).base j k,
      v.small j k,
      v.base j k,
    );
    small = λ j k. ground (arith, count_after spare j v k, v.small j k);
  }
