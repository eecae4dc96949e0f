-- ===== src/State/Update/Masks.antt =====
-- A client state that is told the serialized components of a server's state (`xkb_state_update_mask`).
use libxkbcommon.Base.{
  ℕ, ◌+◌, ◌^◌, ◌<◌, ◌≡◌, refl, ap, ◌∙◌, arith, true, false, List, [], ◌∷◌, drop, bit_and, bit_or,
  has, clear, zero-bit_and, testbit, testbit_ext, testbit-bit_and, testbit-bit_or, testbit-clear,
  testbit-zero, clear-lt, bit_or-lt,
}
use libxkbcommon.Keymap.{Keymap, Mod, resolve_virtual, mod_mask_get_effective}
use libxkbcommon.State.Types.{Components, ServerState}
use libxkbcommon.State.Derived.{update_derived, derive}
use libxkbcommon.State.Derived.Effective.{update_derived-stale}
use libxkbcommon.State.Latches.{resolve_to_canonical_mods}
use libxkbcommon.State.Update.{accepts_masks, update_mask}

-- A mask of 32 bits within the modifiers that a state of this keymap can have.
pub record IsCanonical (keymap : Keymap) (mods : ℕ) : Type 0 where
  pub word : mods < 4294967296
  pub within : bit_and mods keymap.canonical_state_mask ≡ mods

resolve_virtual-nothing : (l : List Mod) (i mask : ℕ) → resolve_virtual l i 0 mask ≡ mask
unfolding resolve_virtual
resolve_virtual-nothing [] i mask = refl
resolve_virtual-nothing (m ∷ l) i mask =
    let off : has 0 (2 ^ i) ≡ false = ground (arith, zero-bit_and (2 ^ i)) in
    rw off (resolve_virtual-nothing l (i + 1) mask)

nothing_else :
    (mods canonical : ℕ)
    → mods < 4294967296
    → canonical < 4294967296
    → bit_and mods canonical ≡ mods
    → clear mods canonical ≡ 0
nothing_else mods canonical p q e =
    testbit_ext 32 (clear mods canonical) 0 (clear-lt mods canonical p) (omega arith) (λ i k.
      ground (
        arith,
        testbit-clear mods canonical i q k,
        testbit-bit_and mods canonical i,
        ap (λ m. testbit m i) e,
        testbit-zero i,
      ))

bit_or-zero : (x : ℕ) → x < 4294967296 → bit_or x 0 ≡ x
bit_or-zero x p =
    testbit_ext 32 (bit_or x 0) x (bit_or-lt 32 x 0 p (omega arith)) p
      (λ i k. ground (arith, testbit-bit_or x 0 i, testbit-zero i))

-- A canonical mask stands for itself.
pub resolve_to_canonical_mods-IsCanonical :
    (keymap : Keymap) (mods : ℕ)
    → keymap.canonical_state_mask < 4294967296
    → IsCanonical keymap mods
    → resolve_to_canonical_mods keymap mods ≡ mods
unfolding resolve_to_canonical_mods mod_mask_get_effective
resolve_to_canonical_mods-IsCanonical keymap mods q m =
    rw
      (
        nothing_else mods keymap.canonical_state_mask m.word q m.within,
        m.within,
        resolve_virtual-nothing (drop 8 keymap.mods) 8 0,
      )
      (bit_or-zero mods m.word)

-- A state whose mode accepts masks has exactly the components `c` after it is given their
-- modifiers and groups, where `c` has the same controls, a derived part that is up to date for the
-- keymap and the layout policy of the state, and modifier masks of 32 bits within the canonical
-- ones of the keymap, a mask of 32 bits itself.
pub update_mask-synchronizes :
    (keymap : Keymap) (s : ServerState) (c : Components)
    → accepts_masks s.mode ≡ true
    → keymap.canonical_state_mask < 4294967296
    → IsCanonical keymap c.base_mods
    → IsCanonical keymap c.latched_mods
    → IsCanonical keymap c.locked_mods
    → c.controls ≡ s.components.controls
    → update_derived keymap s.policy s.redirect_group c ≡ c
    → (update_mask keymap s c.base_mods c.latched_mods c.locked_mods c.base_group c.latched_group
        c.locked_group).0.components
      ≡ c
unfolding update_mask derive
update_mask-synchronizes keymap s c mode q base latched locked controls derived =
    rw
      (
        mode,
        resolve_to_canonical_mods-IsCanonical keymap c.base_mods q base,
        resolve_to_canonical_mods-IsCanonical keymap c.latched_mods q latched,
        resolve_to_canonical_mods-IsCanonical keymap c.locked_mods q locked,
      )
      (rw (← controls) (
        update_derived-stale keymap s.policy s.redirect_group c s.components.group s.components.mods
          s.components.leds
        ∙ derived))
