-- ===== src/State/Derived.antt =====
-- The derived state: effective modifiers and group, and the LEDs (`xkb_state_update_derived`).
pub mod Effective
pub mod Lights
use libxkbcommon.Base.{
  ℕ, ◌+◌, ◌^◌, Bool, true, false, not, ◌&&◌, ◌||◌, List, [], ◌∷◌, ◌==◌, if◌then◌else◌, bit_and,
  bit_or, add32, has,
}
use libxkbcommon.Keymap.{Keymap, Led, Policy, layout_invalid, wrap_group_into_range}
use libxkbcommon.State.Types.{
  Components, mods_effective, mods_depressed, mods_latched, mods_locked, layout_effective,
  layout_depressed, layout_latched, layout_locked, ServerState,
}

-- `if (which & bit) mask |= value;`
abbrev pub add_if : Bool → ℕ → ℕ → ℕ
add_if b mask value = if b then bit_or mask value else mask

-- The first test of `xkb_state_led_update_all`.
unfoldable pub led_mods_lit : Components → Led → Bool
led_mods_lit c led =
    let which = led.which_mods in
    let mask =
      add_if (has which mods_locked)
        (add_if (has which mods_latched)
          (add_if (has which mods_depressed) (add_if (has which mods_effective) 0 c.mods)
            c.base_mods)
          c.latched_mods)
        c.locked_mods in
    not (which == 0) && (not (led.mods.mask == 0) && has led.mods.mask mask)

-- The test on the groups. Without a group mask, an LED for base or latched groups is lit while
-- that group is 0.
unfoldable pub led_groups_lit : Components → Led → Bool
led_groups_lit c led =
    let which = led.which_groups in
    let mask =
      add_if (has which layout_latched && not (c.latched_group == 0))
        (add_if (has which layout_depressed && not (c.base_group == 0))
          (add_if (has which layout_locked) (add_if (has which layout_effective) 0 (2 ^ c.group))
            (2 ^ c.locked_group))
          led.groups)
        led.groups in
    not (which == 0)
    && (if not (led.groups == 0)
        then has led.groups mask
        else has which layout_depressed && (c.base_group == 0)
          || has which layout_latched && (c.latched_group == 0))

unfoldable pub led_lit : Components → Led → Bool
unfolding led_mods_lit led_groups_lit
led_lit c led = led_mods_lit c led || (led_groups_lit c led || has led.ctrls c.controls)

-- The loop of `xkb_state_led_update_all` from index `idx` on.
unfoldable pub led_mask : Components → List Led → ℕ → ℕ → ℕ
led_mask c [] idx leds = leds
led_mask c (led ∷ rest) idx leds = led_mask c rest (idx + 1) (add_if (led_lit c led) leds (2 ^ idx))

unfoldable pub led_update_all : Keymap → Components → Components
led_update_all keymap c = record c { leds = led_mask c keymap.leds 0 0 }

abbrev pub valid_or_zero : ℕ → ℕ
valid_or_zero wrapped = if wrapped == layout_invalid then 0 else wrapped

-- `xkb_state_update_derived`.
unfoldable pub update_derived : Keymap → Policy → ℕ → Components → Components
update_derived keymap policy redirect_group c =
    let bring =
      λ (g : ℕ). valid_or_zero (wrap_group_into_range g keymap.num_groups policy redirect_group) in
    let locked = bring c.locked_group in
    let group = bring (add32 (add32 c.base_group c.latched_group) locked) in
    led_update_all keymap (record c {
      mods = bit_or (bit_or c.base_mods c.latched_mods) c.locked_mods;
      locked_group = locked;
      group = group;
    })

unfoldable pub derive : Keymap → ServerState → ServerState
unfolding update_derived
derive keymap s = record s {
  components = update_derived keymap s.policy s.redirect_group s.components;
}
