-- ===== src/State/Latches/Synthetic.antt =====
-- The synthetic keys of `update_latch_modifiers` and `update_latch_group` always act by their one
-- internal action.
use libxkbcommon.Base.{ℕ, ◌≡◌, refl, arith, [], ◌∷◌}
use libxkbcommon.Keymap.{
  Action, wrap, wrap_group_into_range, effective_layout, get_entry_for_mods, get_actions_by_level,
}
use libxkbcommon.Keymap.Wrap.{wrap_group-lt}
use libxkbcommon.State.Types.{Components}
use libxkbcommon.State.Actions.{
  get_entry_for_key_state, state_key_get_level, state_key_get_layout, key_get_actions,
}
use libxkbcommon.State.Latches.{synthetic_break_key}

only_layout :
    (address : ℕ) (a : Action) (layout : ℕ)
    → effective_layout (synthetic_break_key address a).key layout ≡ 0
unfolding effective_layout
only_layout address a layout = omega (arith, wrap_group-lt layout 1 wrap 0 (omega arith))

only_level :
    (c : Components) (address : ℕ) (a : Action)
    → state_key_get_level c (synthetic_break_key address a).key 0 ≡ 0
unfolding state_key_get_level get_entry_for_key_state get_entry_for_mods
only_level c address a = ground arith

-- Whatever the state, the key's actions are its internal action alone.
pub key_get_actions_synthetic :
    (c : Components) (address : ℕ) (a : Action)
    → key_get_actions c (synthetic_break_key address a).key ≡ a ∷ []
unfolding key_get_actions state_key_get_layout get_actions_by_level effective_layout
    wrap_group_into_range
key_get_actions_synthetic c address a =
    rw (only_layout address a c.group, only_level c address a) refl
