-- ===== src/State/Query/Levels.antt =====
-- The modifiers that src/keymap.c gives for a level, against the level of a state (src/state.c).
use mathlib.Core.Option.{some-injective}
use libxkbcommon.Base.{
  ℕ, zero, suc, ◌-◌, ◌≡◌, ◌⊎◌, refl, sym, ap, ◌∙◌, arith, true, false, not, ◌&&◌, Bool-cases, inl,
  inr, none, some, List, [], ◌∷◌, ltb, leb, ◌==◌, if◌then◌else◌, get_elem?, bit_and, zero-bit_and,
}
use libxkbcommon.Keymap.{
  KeyTypeEntry, KeyType, Group, Keymap, KeyRef, entry_is_active, get_entry_for_mods,
  effective_layout, xkb_key,
}
use libxkbcommon.Keymap.Queries.{
  effective_group, empty_mapped, explicit_masks, mods_for_level, key_get_mods_for_level,
}
use libxkbcommon.State.Types.{Components}
use libxkbcommon.State.Actions.{get_entry_for_key_state, state_key_get_level}

-- No two active entries have the same mask, and every mask is one of the type.
abbrev pub IsEntries : ℕ → List KeyTypeEntry → Type 0
IsEntries mask [] = Unit
IsEntries mask (entry ∷ rest) =
    ((entry_is_active entry ≡ false)
      ⊎ ((get_entry_for_mods rest entry.mods.mask ≡ none)
          × (bit_and entry.mods.mask mask ≡ entry.mods.mask)))
    × IsEntries mask rest

IsFor : ℕ → List KeyTypeEntry → ℕ → ℕ → Type 0
IsFor mask entries level m =
    (e : KeyTypeEntry) × (get_entry_for_mods entries m ≡ some e)
    × (e.level ≡ level)
    × (bit_and m mask ≡ m)

IsFor-later :
    (mask level m : ℕ) (entry : KeyTypeEntry) (rest : List KeyTypeEntry)
    → IsEntries mask (entry ∷ rest)
    → IsFor mask rest level m
    → IsFor mask (entry ∷ rest) level m
unfolding IsFor get_entry_for_mods
IsFor-later mask level m entry rest (inl off, v) (e, found, at, within) =
    (e, rw off found, at, within)
IsFor-later mask level m entry rest (inr (alone, inside), v) (e, found, at, within) =
    elim (Bool-cases (entry.mods.mask == m)) [
      | inl hit ↦
          let is_m : entry.mods.mask ≡ m = ground arith in
          let gone : get_entry_for_mods rest m ≡ none = rw (← is_m) alone in absurd (ground arith)
      | inr miss ↦
          let passed : (entry_is_active entry && (entry.mods.mask == m)) ≡ false = ground arith in
          (e, rw passed found, at, within)
    ]

IsFor-first :
    (mask level : ℕ) (entry : KeyTypeEntry) (rest : List KeyTypeEntry)
    → IsEntries mask (entry ∷ rest)
    → entry_is_active entry ≡ true
    → entry.level ≡ level
    → IsFor mask (entry ∷ rest) level entry.mods.mask
unfolding IsFor get_entry_for_mods
IsFor-first mask level entry rest (inl off, v) on at = absurd (ground arith)
IsFor-first mask level entry rest (inr (alone, inside), v) on at =
    let hit : (entry.mods.mask == entry.mods.mask) ≡ true = ground arith in
    (entry, rw (on, hit) refl, at, inside)

explicit_masks-IsFor :
    (mask level : ℕ) (entries : List KeyTypeEntry) (n i m : ℕ)
    → IsEntries mask entries
    → get_elem? (explicit_masks entries level n) i ≡ some m
    → IsFor mask entries level m
unfolding explicit_masks
explicit_masks-IsFor mask level [] n i m v e = absurd (ground arith)
explicit_masks-IsFor mask level (entry ∷ rest) zero i m v e = absurd (ground arith)
explicit_masks-IsFor mask level (entry ∷ rest) (suc n) zero m v e =
    elim (Bool-cases (entry_is_active entry && (entry.level == level))) [
      | inl t ↦
          let first : entry.mods.mask ≡ m = ground arith in
          rw (← first) (IsFor-first mask level entry rest v (ground arith) (ground arith))
      | inr f ↦
          IsFor-later mask level m entry rest v
            (explicit_masks-IsFor mask level rest (suc n) zero m v.1 (ground arith))
    ]
explicit_masks-IsFor mask level (entry ∷ rest) (suc n) (suc i) m v e =
    elim (Bool-cases (entry_is_active entry && (entry.level == level))) [
      | inl t ↦
          IsFor-later mask level m entry rest v
            (explicit_masks-IsFor mask level rest n i m v.1 (ground arith))
      | inr f ↦
          IsFor-later mask level m entry rest v
            (explicit_masks-IsFor mask level rest (suc n) (suc i) m v.1 (ground arith))
    ]

-- Where no entry is for no modifiers, a state without modifiers has no entry.
empty_mapped-none :
    (entries : List KeyTypeEntry)
    → empty_mapped entries ≡ false
    → get_entry_for_mods entries 0 ≡ none
unfolding empty_mapped get_entry_for_mods
empty_mapped-none [] e = refl
empty_mapped-none (entry ∷ rest) e =
    elim (Bool-cases (entry_is_active entry && (entry.mods.mask == 0))) [
      | inl t ↦ absurd (ground arith)
      | inr f ↦ rw f (empty_mapped-none rest (ground arith))
    ]

-- The level of the type for a state's modifiers.
level_of : KeyType → ℕ → ℕ
level_of type mods = elim (get_entry_for_mods type.entries (bit_and mods type.mods.mask)) [
  | none ↦ 0
  | some e ↦ e.level
]

level_of-IsFor :
    (type : KeyType) (level m : ℕ)
    → IsFor type.mods.mask type.entries level m
    → level_of type m ≡ level
unfolding IsFor level_of
level_of-IsFor type level m (e, found, at, within) = rw (level_of, within, found) at

level_of_none : (type : KeyType) → empty_mapped type.entries ≡ false → level_of type 0 ≡ 0
unfolding level_of
level_of_none type none_mapped =
    rw (level_of, zero-bit_and type.mods.mask, empty_mapped-none type.entries none_mapped) refl

level_of_first :
    (type : KeyType) (level n i m : ℕ)
    → IsEntries type.mods.mask type.entries
    → level ≡ 0
    → empty_mapped type.entries ≡ false
    → get_elem? (0 ∷ explicit_masks type.entries level n) i ≡ some m
    → level_of type m ≡ level
level_of_first type level n zero m v z none_mapped e =
    ap (level_of type) (sym (some-injective 0 m e)) ∙ level_of_none type none_mapped ∙ sym z
level_of_first type level n (suc i) m v z none_mapped e =
    level_of-IsFor type level m (explicit_masks-IsFor type.mods.mask level type.entries n i m v e)

mods_for_level-level :
    (type : KeyType) (level size i m : ℕ)
    → IsEntries type.mods.mask type.entries
    → get_elem? (mods_for_level type level size) i ≡ some m
    → level_of type m ≡ level
unfolding mods_for_level
mods_for_level-level type level size i m v e =
    elim (Bool-cases (level == 0 && (not (empty_mapped type.entries) && ltb 0 size))) [
      | inr f ↦
          level_of-IsFor type level m
            (explicit_masks-IsFor type.mods.mask level type.entries size i m v (rw f at e))
      | inl t ↦ level_of_first type level (size - 1) i m v (ground arith) (ground arith) (rw t at e)
    ]

-- On a group whose type has no two active entries for the same modifiers, all among those of the type:
-- a state whose effective modifiers are a mask that the keymap gives for a level is at that level.
pub key_get_mods_for_level_sound :
    (keymap : Keymap) (c : Components) (kc layout level size i : ℕ) (k : KeyRef) (group : Group)
    → xkb_key keymap kc ≡ some k
    → get_elem? k.key.groups (effective_layout k.key layout) ≡ some group
    → IsEntries group.type.mods.mask group.type.entries
    → get_elem? (key_get_mods_for_level keymap kc layout level size) i ≡ some c.mods
    → state_key_get_level c k.key (effective_layout k.key layout) ≡ level
unfolding key_get_mods_for_level state_key_get_level get_entry_for_key_state
key_get_mods_for_level_sound keymap c kc layout level size i k group known at v e =
    let given : get_elem?
          (if leb group.type.num_levels level then [] else mods_for_level group.type level size) i
        ≡ some c.mods =
      rw (key_get_mods_for_level, effective_group, known, at) at e in
    elim (Bool-cases (leb group.type.num_levels level)) [
      | inl t ↦ absurd (ground arith)
      | inr f ↦
          rw (state_key_get_level, at)
            (unfold level_of in
              mods_for_level-level group.type level size i c.mods v (rw f at given))
    ]
