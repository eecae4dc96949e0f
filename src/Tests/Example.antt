-- ===== src/Tests/Example.antt =====
-- A keymap of three keys and two groups: Shift (key code 10), a letter with two levels (11) and a
-- latch of Control that carries a sticky-keys control (12). Modifier 8 is virtual and maps to Mod1.
use libxkbcommon.Base.{
  ℕ, zero, suc, ◌<◌, ◌≡◌, refl, arith, true, false, some, Option-cases, Bool-cases, inl, inr, List,
  [], ◌∷◌, get_elem?, leb, ◌==◌,
}
use libxkbcommon.Keymap.{
  Action, mod_set, mod_latch, ctrl_set, action_of, Mods, KeyType, Level, Group, wrap, Key, Mod, Led,
  Keymap, level_invalid, effective_layout, get_actions_by_level,
}
use libxkbcommon.Keymap.KeyTable.{xkb_key-RefersTo}
use libxkbcommon.State.Actions.{
  or_dummy, state_key_get_level, state_key_get_layout, key_get_actions,
}
use libxkbcommon.State.Frame.Events.{WordMasks, HasWordMasks}
use libxkbcommon.State.Frame.Entry.{WordMappings}
use libxkbcommon.State.Update.Invariant.{IsCompiled}

abbrev pub WordLevels : List Level → Type 0
WordLevels [] = Unit
WordLevels (l ∷ rest) = WordMasks l.actions × WordLevels rest

abbrev pub WordGroups : List Group → Type 0
WordGroups [] = Unit
WordGroups (g ∷ rest) = WordLevels g.levels × WordGroups rest

abbrev pub WordKeys : List Key → Type 0
WordKeys [] = Unit
WordKeys (k ∷ rest) = WordGroups k.groups × WordKeys rest

WordLevels-get_elem? :
    (l : List Level) (i : ℕ) {x : Level}
    → WordLevels l
    → get_elem? l i ≡ some x
    → WordMasks x.actions
WordLevels-get_elem? [] i w e = absurd (ground arith)
WordLevels-get_elem? (y ∷ l) zero {x} w e = let same : y ≡ x = cc in rw (← same) w.0
WordLevels-get_elem? (y ∷ l) (suc i) w e = WordLevels-get_elem? l i w.1 e

WordGroups-get_elem? :
    (l : List Group) (i : ℕ) {x : Group}
    → WordGroups l
    → get_elem? l i ≡ some x
    → WordLevels x.levels
WordGroups-get_elem? [] i w e = absurd (ground arith)
WordGroups-get_elem? (y ∷ l) zero {x} w e = let same : y ≡ x = cc in rw (← same) w.0
WordGroups-get_elem? (y ∷ l) (suc i) w e = WordGroups-get_elem? l i w.1 e

pub WordKeys-get_elem? :
    (l : List Key) (i : ℕ) {x : Key} → WordKeys l → get_elem? l i ≡ some x → WordGroups x.groups
WordKeys-get_elem? [] i w e = absurd (ground arith)
WordKeys-get_elem? (y ∷ l) zero {x} w e = let same : y ≡ x = cc in rw (← same) w.0
WordKeys-get_elem? (y ∷ l) (suc i) w e = WordKeys-get_elem? l i w.1 e

WordMasks-or_dummy : (l : List Action) → WordMasks l → WordMasks (or_dummy l)
WordMasks-or_dummy [] w = (omega arith, tt)
WordMasks-or_dummy (a ∷ l) w = w

get_actions_by_level-WordMasks :
    (key : Key) (layout level : ℕ)
    → WordGroups key.groups
    → WordMasks (get_actions_by_level key layout level)
unfolding get_actions_by_level
get_actions_by_level-WordMasks key layout level w =
    elim (Option-cases (get_elem? key.groups (effective_layout key layout))) [
      | inl e ↦
          let missing : get_actions_by_level key layout level ≡ [] = ground arith in rw missing tt
      | inr (group, e) ↦ elim (Bool-cases (leb group.type.num_levels level)) [
        | inl out ↦
            let missing : get_actions_by_level key layout level ≡ [] = ground arith in rw missing tt
        | inr below ↦ elim (Option-cases (get_elem? group.levels level)) [
          | inl f ↦
              let missing : get_actions_by_level key layout level ≡ [] = ground arith in
              rw missing tt
          | inr (l, f) ↦
              let held : get_actions_by_level key layout level ≡ l.actions = ground arith in
              rw held (
                WordLevels-get_elem? group.levels level
                  (WordGroups-get_elem? key.groups (effective_layout key layout) w e) f)
        ]
      ]
    ]

pub key_get_actions-WordMasks : (key : Key) → WordGroups key.groups → HasWordMasks key
unfolding key_get_actions
key_get_actions-WordMasks key w c =
    let layout = state_key_get_layout c key in
    let level = state_key_get_level c key layout in
    elim (Bool-cases (level == level_invalid)) [
      | inl invalid ↦ rw invalid (omega arith, tt)
      | inr valid ↦ rw valid (
          WordMasks-or_dummy (get_actions_by_level key layout level)
            (get_actions_by_level-WordMasks key layout level w))
    ]

-- A keymap whose arrays hold 32-bit masks.
pub IsCompiled-of_words :
    (keymap : Keymap)
    → keymap.num_groups < 33
    → WordMappings keymap.mods
    → WordKeys keymap.keys
    → keymap.num_keys_low ≡ 0
    → IsCompiled keymap
IsCompiled-of_words keymap g m w low = record {
  groups = omega arith;
  mappings = m;
  actions = λ kc key e.
      let (i, (address, at), same) =
        xkb_key-RefersTo keymap kc (λ i k h f. absurd (omega arith)) e in
      key_get_actions-WordMasks key.key (WordKeys-get_elem? keymap.keys i w at);
}

abbrev pub no_mods : Mods
no_mods = record { mods = 0; mask = 0 }

abbrev pub shift : Mods
shift = record { mods = 1; mask = 1 }

abbrev pub one_level : KeyType
one_level = record { mods = no_mods; num_levels = 1; entries = [] }

abbrev pub two_level : KeyType
two_level = record {
  mods = shift;
  num_levels = 2;
  entries = record { level = 1; mods = shift; preserve = no_mods } ∷ [];
}

abbrev pub one_group : ℕ → KeyType → List Level → Key
one_group kc type levels = record {
  key_code = kc;
  name = kc;
  overlays = 0;
  overlays_inline = false;
  overlay_key = 0;
  overlays_keys = [];
  repeats = false;
  policy = wrap;
  group_number = 0;
  groups = record { type = type; levels = levels } ∷ [];
}

abbrev pub shift_key : Key
shift_key =
    one_group 10 one_level
      (record { syms = 0xffe1 ∷ []; actions = record (action_of mod_set) { mask = 1 } ∷ [] } ∷ [])

abbrev pub letter_key : Key
letter_key =
    one_group 11 two_level
      (record { syms = 97 ∷ []; actions = [] } ∷ record { syms = 65 ∷ []; actions = [] } ∷ [])

abbrev pub latch_key : Key
latch_key = one_group 12 one_level (
    record {
      syms = 0xffe3 ∷ [];
      actions =
          record (action_of mod_latch) { mask = 4 }
          ∷ record (action_of ctrl_set) { ctrls = 1 }
          ∷ [];
    }
    ∷ [])

abbrev pub real_mod : ℕ → Mod
real_mod mapping = record { is_virtual = false; mapping = mapping }

abbrev pub shift_led : Led
shift_led = record {
  named = true;
  which_groups = 0;
  groups = 0;
  which_mods = 8;
  mods = shift;
  ctrls = 0;
}

abbrev pub keymap : Keymap
keymap = record {
  v1_format = true;
  min_key_code = 8;
  max_key_code = 255;
  num_keys_low = 0;
  keys = shift_key ∷ letter_key ∷ latch_key ∷ [];
  mods =
      real_mod 1
      ∷ real_mod 2
      ∷ real_mod 4
      ∷ real_mod 8
      ∷ real_mod 16
      ∷ real_mod 32
      ∷ real_mod 64
      ∷ real_mod 128
      ∷ record { is_virtual = true; mapping = 8 }
      ∷ [];
  canonical_state_mask = 255;
  num_groups = 2;
  leds = shift_led ∷ [];
}

pub keymap-IsCompiled : IsCompiled keymap
keymap-IsCompiled =
    IsCompiled-of_words keymap (omega arith)
      (
        omega arith,
        (
          omega arith,
          (
            omega arith,
            (
              omega arith,
              (omega arith, (omega arith, (omega arith, (omega arith, (omega arith, tt))))),
            ),
          ),
        ),
      )
      (
        (((omega arith, tt), tt), tt),
        (((tt, (tt, tt)), tt), ((((omega arith, (omega arith, tt)), tt), tt), tt)),
      )
      refl
