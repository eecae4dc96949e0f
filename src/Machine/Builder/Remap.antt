-- ===== src/Machine/Builder/Remap.antt =====
-- The remapped modifiers of a builder as a map, and the operations that fail.
use libxkbcommon.Base.{
  ℕ, ◌<◌, ◌≡◌, ◌≢◌, refl, arith, false, ◌||◌, ◌&&◌, Bool-cases, inl, inr, List, [], ◌∷◌, ◌==◌,
  if◌then◌else◌, has, leb, length,
}
use libxkbcommon.Keymap.{Keymap}
use libxkbcommon.Machine.{ModsMapping, MachineBuilder}
use libxkbcommon.Machine.Builder.{
  BuilderError, success, invalid_a11y_flags, is_foreign, put_mapping, update_a11y_flags, remap_mods,
  update_shortcut_mods, remap_shortcut_layout,
}

-- The target of some source modifiers, 0 where they are not remapped.
abbrev pub target_of : List ModsMapping → ℕ → ℕ
target_of [] source = 0
target_of (m ∷ l) source = if m.source == source then m.target else target_of l source

-- Each source is mapped once, and neither sources nor targets are empty.
abbrev pub IsMap : List ModsMapping → Type 0
IsMap [] = Unit
IsMap (m ∷ l) = (0 < m.source) × (0 < m.target) × (target_of l m.source ≡ 0) × IsMap l

target_of-put_mapping :
    (l : List ModsMapping) (source target q : ℕ)
    → IsMap l
    → target_of (put_mapping l source target) q ≡ (if source == q then target else target_of l q)
unfolding put_mapping
target_of-put_mapping [] source target q m = ground arith
target_of-put_mapping (x ∷ l) source target q m = elim (Bool-cases (x.source == source)) [
  | inl t ↦
      let same : x.source ≡ source = ground arith in
      let missing : target_of l source ≡ 0 = rw (← same) m.2 in
      elim (Bool-cases (source == q)) [
        | inl u ↦
            let same' : source ≡ q = ground arith in
            let missing' : target_of l q ≡ 0 = rw (← same') missing in rw (t, u) (ground arith)
        | inr u ↦ rw (t, u) (ground arith)
      ]
  | inr f ↦ rw f (ground (arith, target_of-put_mapping l source target q m.3))
]

put_mapping-IsMap :
    (l : List ModsMapping) (source target : ℕ)
    → IsMap l
    → 0 < source
    → IsMap (put_mapping l source target)
unfolding put_mapping
put_mapping-IsMap [] source target m h = elim (Bool-cases (target == 0)) [
  | inl t ↦ rw t tt
  | inr f ↦ rw f (h, ground arith, refl, tt)
]
put_mapping-IsMap (x ∷ l) source target m h = elim (Bool-cases (x.source == source)) [
  | inl t ↦ rw t (elim (Bool-cases (target == 0)) [
    | inl z ↦ rw z m.3
    | inr z ↦ rw z (m.0, ground arith, m.2, m.3)
  ])
  | inr f ↦ rw f (
    m.0,
    m.1,
    ground (arith, target_of-put_mapping l source target x.source m.3),
    put_mapping-IsMap l source target m.3 h,
  )
]

-- What `xkb_machine_builder_remap_mods` does to the map, as the documentation tells it.
abbrev pub remapped_target : List ModsMapping → ℕ → ℕ → ℕ → ℕ
remapped_target l source target q =
    if source == 0 then 0 else if source == q then target else target_of l q

-- A call of `xkb_machine_builder_remap_mods` that succeeds maps the source modifiers to the target,
-- or to nothing where the target is empty, forgets all mappings where both are empty, and leaves
-- the others; a builder that maps each source once still does.
pub remap_mods-maps :
    (b : MachineBuilder) (source target : ℕ)
    → IsMap b.mods
    → (remap_mods b source target).1 ≡ success
    → IsMap (remap_mods b source target).0.mods
      × ((q : ℕ)
          → target_of (remap_mods b source target).0.mods q
            ≡ remapped_target b.mods source target q)
unfolding remap_mods
remap_mods-maps b source target m e = elim (Bool-cases (source == 0)) [
  | inl t ↦ elim (Bool-cases (target == 0)) [
    | inl u ↦ rw (t, u) (tt, λ q. refl)
    | inr u ↦ absurd (ground arith)
  ]
  | inr f ↦ elim (Bool-cases (is_foreign b.keymap source || is_foreign b.keymap target)) [
    | inl u ↦ absurd (ground arith)
    | inr u ↦
        rw (f, u)
          (
            put_mapping-IsMap b.mods source target m (ground arith),
            λ q. (target_of-put_mapping b.mods source target q m),
          )
  ]
]

update_a11y_flags-refused :
    (b : MachineBuilder) (affect flags : ℕ)
    → (update_a11y_flags b affect flags).1 ≢ success
    → (update_a11y_flags b affect flags).0 ≡ b
unfolding update_a11y_flags
update_a11y_flags-refused b affect flags h =
    elim (Bool-cases (has affect invalid_a11y_flags || has flags invalid_a11y_flags)) [
      | inl t ↦ rw t refl
      | inr f ↦ absurd (h (rw f refl))
    ]

remap_mods-refused :
    (b : MachineBuilder) (source target : ℕ)
    → (remap_mods b source target).1 ≢ success
    → (remap_mods b source target).0 ≡ b
unfolding remap_mods
remap_mods-refused b source target h = elim (Bool-cases (source == 0)) [
  | inl t ↦ elim (Bool-cases (target == 0)) [
    | inl u ↦ absurd (h (rw (t, u) refl))
    | inr u ↦ rw (t, u) refl
  ]
  | inr f ↦ elim (Bool-cases (is_foreign b.keymap source || is_foreign b.keymap target)) [
    | inl u ↦ rw (f, u) refl
    | inr u ↦ absurd (h (rw (f, u) refl))
  ]
]

update_shortcut_mods-refused :
    (b : MachineBuilder) (affect mask : ℕ)
    → (update_shortcut_mods b affect mask).1 ≢ success
    → (update_shortcut_mods b affect mask).0 ≡ b
unfolding update_shortcut_mods
update_shortcut_mods-refused b affect mask h =
    elim (Bool-cases (is_foreign b.keymap affect || is_foreign b.keymap mask)) [
      | inl t ↦ rw t refl
      | inr f ↦ absurd (h (rw f refl))
    ]

remap_shortcut_layout-refused :
    (b : MachineBuilder) (source target : ℕ)
    → (remap_shortcut_layout b source target).1 ≢ success
    → (remap_shortcut_layout b source target).0 ≡ b
unfolding remap_shortcut_layout
remap_shortcut_layout-refused b source target h =
    elim (Bool-cases (leb b.keymap.num_groups source || leb b.keymap.num_groups target)) [
      | inl t ↦ rw t refl
      | inr f ↦ elim (Bool-cases (leb (length b.shortcuts_targets) source && (target == source))) [
        | inl u ↦ rw (f, u) refl
        | inr u ↦ absurd (h (rw (f, u) refl))
      ]
    ]

-- An operation of the builder.
pub data BuilderCall : Type 0 where
  a11y_flags mods shortcut_mods shortcut_layout : ℕ → ℕ → BuilderCall

abbrev pub builder_call : MachineBuilder → BuilderCall → MachineBuilder × BuilderError
builder_call b (a11y_flags affect flags) = update_a11y_flags b affect flags
builder_call b (mods source target) = remap_mods b source target
builder_call b (shortcut_mods affect mask) = update_shortcut_mods b affect mask
builder_call b (shortcut_layout source target) = remap_shortcut_layout b source target

-- An operation of the builder that returns an error leaves the builder as it was.
pub builder_call-refused :
    (b : MachineBuilder) (c : BuilderCall)
    → (builder_call b c).1 ≢ success
    → (builder_call b c).0 ≡ b
builder_call-refused b (a11y_flags affect flags) h = update_a11y_flags-refused b affect flags h
builder_call-refused b (mods source target) h = remap_mods-refused b source target h
builder_call-refused b (shortcut_mods affect mask) h = update_shortcut_mods-refused b affect mask h
builder_call-refused b (shortcut_layout source target) h =
    remap_shortcut_layout-refused b source target h

-- All modifiers that are remapped are canonical ones of the keymap, in masks of 32 bits.
abbrev pub AllCanonical : Keymap → List ModsMapping → Type 0
AllCanonical keymap [] = Unit
AllCanonical keymap (m ∷ l) =
    (is_foreign keymap m.source ≡ false)
    × (is_foreign keymap m.target ≡ false)
    × (m.source < 4294967296)
    × AllCanonical keymap l

-- What the operations of the builder keep of its mappings.
pub record IsBuilt (b : MachineBuilder) : Type 0 where
  pub map : IsMap b.mods
  pub canonical : AllCanonical b.keymap b.mods

put_mapping-AllCanonical :
    (keymap : Keymap) (l : List ModsMapping) (source target : ℕ)
    → is_foreign keymap source ≡ false
    → is_foreign keymap target ≡ false
    → source < 4294967296
    → AllCanonical keymap l
    → AllCanonical keymap (put_mapping l source target)
unfolding put_mapping
put_mapping-AllCanonical keymap [] source target h k w c = elim (Bool-cases (target == 0)) [
  | inl t ↦ rw t tt
  | inr f ↦ rw f (h, k, w, tt)
]
put_mapping-AllCanonical keymap (x ∷ l) source target h k w c =
    elim (Bool-cases (x.source == source)) [
      | inl t ↦
          rw t
            (elim (Bool-cases (target == 0)) [ inl z ↦ rw z c.3 | inr z ↦ rw z (c.0, k, c.2, c.3) ])
      | inr f ↦ rw f (c.0, c.1, c.2, put_mapping-AllCanonical keymap l source target h k w c.3)
    ]

remap_mods-IsBuilt :
    (b : MachineBuilder) (source target : ℕ)
    → source < 4294967296
    → IsBuilt b
    → IsBuilt (remap_mods b source target).0
unfolding remap_mods
remap_mods-IsBuilt b source target w i = elim (Bool-cases (source == 0)) [
  | inl t ↦ elim (Bool-cases (target == 0)) [
    | inl u ↦ rw (t, u) (record { map = tt; canonical = tt })
    | inr u ↦ rw (t, u) i
  ]
  | inr f ↦ elim (Bool-cases (is_foreign b.keymap source || is_foreign b.keymap target)) [
    | inl u ↦ rw (f, u) i
    | inr u ↦
        rw (f, u)
          (record {
            map = put_mapping-IsMap b.mods source target i.map (ground arith);
            canonical =
                put_mapping-AllCanonical b.keymap b.mods source target (ground arith) (ground arith)
                  w i.canonical;
          })
  ]
]

others-IsBuilt :
    (b : MachineBuilder) (x y : ℕ)
    → IsBuilt b
    → IsBuilt (update_a11y_flags b x y).0
      × IsBuilt (update_shortcut_mods b x y).0
      × IsBuilt (remap_shortcut_layout b x y).0
unfolding update_a11y_flags update_shortcut_mods remap_shortcut_layout
others-IsBuilt b x y i = (
  elim (Bool-cases (has x invalid_a11y_flags || has y invalid_a11y_flags)) [
    | inl t ↦ rw t i
    | inr f ↦ rw f (record { map = i.map; canonical = i.canonical })
  ],
  elim (Bool-cases (is_foreign b.keymap x || is_foreign b.keymap y)) [
    | inl t ↦ rw t i
    | inr f ↦ rw f (record { map = i.map; canonical = i.canonical })
  ],
  elim (Bool-cases (leb b.keymap.num_groups x || leb b.keymap.num_groups y)) [
    | inl t ↦ rw t i
    | inr f ↦ rw f (elim (Bool-cases (leb (length b.shortcuts_targets) x && (y == x))) [
      | inl u ↦ rw u i
      | inr u ↦ rw u (record { map = i.map; canonical = i.canonical })
    ])
  ],
)

-- The source masks handed over are 32 bits wide.
abbrev pub WordCall : BuilderCall → Type 0
WordCall (mods source target) = source < 4294967296
WordCall _ = Unit

-- Each operation of the builder, on masks of 32 bits and whether it succeeds or not, keeps its
-- mappings a map without empty masks, of canonical modifiers of the keymap only.
pub builder_call-IsBuilt :
    (b : MachineBuilder) (c : BuilderCall) → WordCall c → IsBuilt b → IsBuilt (builder_call b c).0
builder_call-IsBuilt b (mods source target) w i = remap_mods-IsBuilt b source target w i
builder_call-IsBuilt b (a11y_flags affect flags) w i = (others-IsBuilt b affect flags i).0
builder_call-IsBuilt b (shortcut_mods affect mask) w i = (others-IsBuilt b affect mask i).1
builder_call-IsBuilt b (shortcut_layout source target) w i = (others-IsBuilt b source target i).2
