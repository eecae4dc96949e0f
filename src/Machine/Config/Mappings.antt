-- ===== src/Machine/Config/Mappings.antt =====
-- The mappings of a machine are those of its builder, in the order in which they take precedence
-- (`machine_set_mods`, `machine_set_shortcuts`).
use libxkbcommon.Base.{
  ℕ, ◌<◌, ◌≡◌, ◌⊎◌, refl, ap, ◌∙◌, arith, true, false, Bool-cases, inl, inr, List, [], ◌∷◌, ◌==◌,
  if◌then◌else◌, bit_and,
}
use libxkbcommon.Keymap.{Keymap}
use libxkbcommon.Machine.{ModsMapping, MachineBuilder, Machine}
use libxkbcommon.Machine.Builder.Remap.{target_of, IsMap, AllCanonical, IsBuilt}
use libxkbcommon.Machine.Config.{
  cmp_mod_masks, is_behind, insert_mapping, sort_mappings, is_valid_mapping, valid_mappings,
  machine_set_mods, machine_set_shortcuts, machine_new, popcount32,
}
use libxkbcommon.Machine.Config.Priority.{by_count, cmp_mod_masks-by_count, popcount-lt}

abbrev pub WordSources : List ModsMapping → Type 0
WordSources [] = Unit
WordSources (m ∷ l) = (m.source < 4294967296) × WordSources l

-- No mapping of the list has to stand in front of `m`.
abbrev pub NotBefore : ModsMapping → List ModsMapping → Type 0
NotBefore m [] = Unit
NotBefore m (x ∷ l) = (is_behind (cmp_mod_masks m.source x.source) ≡ false) × NotBefore m l

abbrev pub InOrder : List ModsMapping → Type 0
InOrder [] = Unit
InOrder (m ∷ l) = NotBefore m l × InOrder l

target_of-insert_mapping :
    (m : ModsMapping) (l : List ModsMapping) (q : ℕ)
    → target_of l m.source ≡ 0
    → IsMap l
    → target_of (insert_mapping m l) q ≡ (if m.source == q then m.target else target_of l q)
unfolding insert_mapping
target_of-insert_mapping m [] q h t = refl
target_of-insert_mapping m (x ∷ l) q h t =
    elim (Bool-cases (is_behind (cmp_mod_masks m.source x.source))) [
      | inr f ↦ rw f refl
      | inl b ↦ elim (Bool-cases (x.source == m.source)) [
        | inl e ↦ absurd (ground arith)
        | inr e ↦ rw b (ground (arith, target_of-insert_mapping m l q (rw e at h) t.3))
      ]
    ]

insert_mapping-IsMap :
    (m : ModsMapping) (l : List ModsMapping)
    → target_of l m.source ≡ 0
    → 0 < m.source
    → 0 < m.target
    → IsMap l
    → IsMap (insert_mapping m l)
unfolding insert_mapping
insert_mapping-IsMap m [] h p q t = (p, q, refl, tt)
insert_mapping-IsMap m (x ∷ l) h p q t =
    elim (Bool-cases (is_behind (cmp_mod_masks m.source x.source))) [
      | inr f ↦ rw f (p, q, h, t)
      | inl b ↦ elim (Bool-cases (x.source == m.source)) [
        | inl e ↦ absurd (ground arith)
        | inr e ↦ rw b (
          t.0,
          t.1,
          target_of-insert_mapping m l x.source (rw e at h) t.3 ∙ ground arith,
          insert_mapping-IsMap m l (rw e at h) p q t.3,
        )
      ]
    ]

pub target_of-sort_mappings :
    (l : List ModsMapping) (q : ℕ)
    → IsMap l
    → IsMap (sort_mappings l) × (target_of (sort_mappings l) q ≡ target_of l q)
unfolding sort_mappings
target_of-sort_mappings [] q t = (tt, refl)
target_of-sort_mappings (m ∷ l) q t =
    let next = target_of-sort_mappings l q t.3 in
    let missing = (target_of-sort_mappings l m.source t.3).1 ∙ t.2 in
    (
      insert_mapping-IsMap m (sort_mappings l) missing t.0 t.1 next.0,
      target_of-insert_mapping m (sort_mappings l) q missing next.0 ∙ rw next.1 refl,
    )

-- Not behind means equal, of more modifiers, or of as many and smaller.
not_behind :
    (a b : ℕ)
    → is_behind (by_count a b) ≡ false
    → (a ≡ b) ⊎ ((popcount32 b < popcount32 a) ⊎ ((popcount32 b ≡ popcount32 a) × (a < b)))
not_behind a b h = ground arith

not_behind_of :
    (a b : ℕ)
    → (a ≡ b) ⊎ ((popcount32 b < popcount32 a) ⊎ ((popcount32 b ≡ popcount32 a) × (a < b)))
    → is_behind (by_count a b) ≡ false
not_behind_of a b (inl e) = ground arith
not_behind_of a b (inr (inl more)) = ground arith
not_behind_of a b (inr (inr (as_many, less))) = ground arith

by_count_trans :
    (a b c : ℕ)
    → is_behind (by_count a b) ≡ false
    → is_behind (by_count b c) ≡ false
    → is_behind (by_count a c) ≡ false
by_count_trans a b c h k = elim (not_behind a b h) [
  | inl e ↦ rw e k
  | inr (inl more) ↦ elim (not_behind b c k) [
    | inl e ↦ rw (← e) h
    | inr (inl more') ↦ not_behind_of a c (inr (inl (omega arith)))
    | inr (inr (as_many', less')) ↦ not_behind_of a c (inr (inl (omega arith)))
  ]
  | inr (inr (as_many, less)) ↦ elim (not_behind b c k) [
    | inl e ↦ rw (← e) h
    | inr (inl more') ↦ not_behind_of a c (inr (inl (omega arith)))
    | inr (inr (as_many', less')) ↦ not_behind_of a c (inr (inr ((omega arith, omega arith))))
  ]
]

by_count-total : (a b : ℕ) → is_behind (by_count a b) ≡ true → is_behind (by_count b a) ≡ false
by_count-total a b h = ground arith

NotBefore-trans :
    (m x : ModsMapping) (l : List ModsMapping)
    → m.source < 4294967296
    → x.source < 4294967296
    → WordSources l
    → is_behind (cmp_mod_masks m.source x.source) ≡ false
    → NotBefore x l
    → NotBefore m l
NotBefore-trans m x [] p q w h n = tt
NotBefore-trans m x (y ∷ l) p q w h n = (
  rw (cmp_mod_masks-by_count m.source y.source p w.0) (
      by_count_trans m.source x.source y.source
        (rw (cmp_mod_masks-by_count m.source x.source p q) at h)
        (rw (cmp_mod_masks-by_count x.source y.source q w.0) at n.0)),
  NotBefore-trans m x l p q w.1 h n.1,
)

NotBefore-insert :
    (x m : ModsMapping) (l : List ModsMapping)
    → is_behind (cmp_mod_masks x.source m.source) ≡ false
    → NotBefore x l
    → NotBefore x (insert_mapping m l)
unfolding insert_mapping
NotBefore-insert x m [] h n = (h, tt)
NotBefore-insert x m (y ∷ l) h n = elim (Bool-cases (is_behind (cmp_mod_masks m.source y.source))) [
  | inr f ↦ rw f (h, n)
  | inl b ↦ rw b (n.0, NotBefore-insert x m l h n.1)
]

WordSources-insert :
    (m : ModsMapping) (l : List ModsMapping)
    → m.source < 4294967296
    → WordSources l
    → WordSources (insert_mapping m l)
unfolding insert_mapping
WordSources-insert m [] p w = (p, tt)
WordSources-insert m (x ∷ l) p w = elim (Bool-cases (is_behind (cmp_mod_masks m.source x.source))) [
  | inr f ↦ rw f (p, w)
  | inl b ↦ rw b (w.0, WordSources-insert m l p w.1)
]

insert_mapping-InOrder :
    (m : ModsMapping) (l : List ModsMapping)
    → m.source < 4294967296
    → WordSources l
    → InOrder l
    → InOrder (insert_mapping m l)
unfolding insert_mapping
insert_mapping-InOrder m [] p w o = (tt, tt)
insert_mapping-InOrder m (x ∷ l) p w o =
    elim (Bool-cases (is_behind (cmp_mod_masks m.source x.source))) [
      | inr f ↦ rw f ((f, NotBefore-trans m x l p w.0 w.1 f o.0), o)
      | inl b ↦
          let less =
            by_count-total m.source x.source
              (rw (cmp_mod_masks-by_count m.source x.source p w.0) at b) in
          let after : is_behind (cmp_mod_masks x.source m.source) ≡ false =
            rw (cmp_mod_masks-by_count x.source m.source w.0 p) less in
          rw b (NotBefore-insert x m l after o.0, insert_mapping-InOrder m l p w.1 o.1)
    ]

sort_mappings-InOrder :
    (l : List ModsMapping)
    → WordSources l
    → WordSources (sort_mappings l) × InOrder (sort_mappings l)
unfolding sort_mappings
sort_mappings-InOrder [] w = (tt, tt)
sort_mappings-InOrder (m ∷ l) w =
    let next = sort_mappings-InOrder l w.1 in
    (
      WordSources-insert m (sort_mappings l) w.0 next.0,
      insert_mapping-InOrder m (sort_mappings l) w.0 next.0 next.1,
    )

pub AllCanonical-WordSources :
    (keymap : Keymap) (l : List ModsMapping) → AllCanonical keymap l → WordSources l
AllCanonical-WordSources keymap [] c = tt
AllCanonical-WordSources keymap (m ∷ l) c = (c.2, AllCanonical-WordSources keymap l c.3)

-- All mappings of a builder are valid.
pub valid_mappings-all :
    (keymap : Keymap) (l : List ModsMapping)
    → IsMap l
    → AllCanonical keymap l
    → valid_mappings keymap l ≡ l
unfolding valid_mappings
valid_mappings-all keymap [] t c = refl
valid_mappings-all keymap (m ∷ l) t c =
    let valid : is_valid_mapping keymap m ≡ true = ground arith in
    rw valid (ap (λ r. m ∷ r) (valid_mappings-all keymap l t.3 c.3))

machine_set_shortcuts-mappings :
    (keymap : Keymap) (sm : Machine) (mask : ℕ) (targets : List ℕ)
    → (machine_set_shortcuts keymap sm mask targets).mappings ≡ sm.mappings
unfolding machine_set_shortcuts
machine_set_shortcuts-mappings keymap sm mask targets = ground arith

-- No mapping whose source modifiers are a part of another's stands in front of that one.
abbrev pub PartsBehind : ModsMapping → List ModsMapping → Type 0
PartsBehind m [] = Unit
PartsBehind m (x ∷ l) =
    (bit_and m.source x.source ≡ m.source → m.source ≡ x.source) × PartsBehind m l

abbrev pub PartsLater : List ModsMapping → Type 0
PartsLater [] = Unit
PartsLater (m ∷ l) = PartsBehind m l × PartsLater l

part_behind :
    (a b : ℕ)
    → a < 4294967296
    → b < 4294967296
    → is_behind (cmp_mod_masks a b) ≡ false
    → bit_and a b ≡ a
    → a ≡ b
part_behind a b p q h e = elim (Bool-cases (a == b)) [
  | inl equal ↦ ground arith
  | inr differ ↦
      let fewer = popcount-lt 32 a b p q e (λ x. absurd (ground arith)) in
      let h' : is_behind (by_count a b) ≡ false = rw (cmp_mod_masks-by_count a b p q) at h in
      elim (not_behind a b h') [
        | inl x ↦ x
        | inr (inl more) ↦ absurd (omega arith)
        | inr (inr (as_many, less)) ↦ absurd (omega arith)
      ]
]

NotBefore-PartsBehind :
    (m : ModsMapping) (l : List ModsMapping)
    → m.source < 4294967296
    → WordSources l
    → NotBefore m l
    → PartsBehind m l
NotBefore-PartsBehind m [] p w n = tt
NotBefore-PartsBehind m (x ∷ l) p w n =
    (part_behind m.source x.source p w.0 n.0, NotBefore-PartsBehind m l p w.1 n.1)

InOrder-PartsLater : (l : List ModsMapping) → WordSources l → InOrder l → PartsLater l
InOrder-PartsLater [] w o = tt
InOrder-PartsLater (m ∷ l) w o =
    (NotBefore-PartsBehind m l w.0 w.1 o.0, InOrder-PartsLater l w.1 o.1)

pub machine_new-sorts :
    (b : MachineBuilder) → IsBuilt b → (machine_new b).mappings ≡ sort_mappings b.mods
unfolding machine_new machine_set_mods
machine_new-sorts b i =
    machine_set_shortcuts-mappings b.keymap _ b.shortcuts_mask b.shortcuts_targets
    ∙ ap sort_mappings (valid_mappings-all b.keymap b.mods i.map i.canonical)

-- The array of a machine is the map that its builder was told, and in it a mapping
-- stands in front of those whose source modifiers are a part of its own, so that it takes
-- precedence, where the builder went through operations on masks of 32 bits.
pub machine_new-mappings :
    (b : MachineBuilder)
    → IsBuilt b
    → ((q : ℕ) → target_of (machine_new b).mappings q ≡ target_of b.mods q)
      × PartsLater (machine_new b).mappings
machine_new-mappings b i =
    let words = AllCanonical-WordSources b.keymap b.mods i.canonical in
    let sorted = sort_mappings-InOrder b.mods words in
    rw (machine_new-sorts b i) (
      λ q. (target_of-sort_mappings b.mods q i.map).1,
      InOrder-PartsLater (sort_mappings b.mods) sorted.0 sorted.1,
    )
