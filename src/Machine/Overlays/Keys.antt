-- ===== src/Machine/Overlays/Keys.antt =====
-- The table of overlaid keys as a map from the address of a key to its target and the presses that
-- are still to be released (`process_overlayable_key`).
use libxkbcommon.Base.{
  ℕ, suc, ◌<◌, ◌≡◌, ◌≢◌, refl, ◌∙◌, arith, true, false, Bool-cases, Option-cases, inl, inr, Option,
  none, some, List, [], ◌∷◌, ◌==◌, if◌then◌else◌,
}
use libxkbcommon.Keymap.{Keymap, KeyRef}
use libxkbcommon.State.Types.{Direction, up, down, repeated}
use libxkbcommon.Machine.{OverlaidKey, Machine}
use libxkbcommon.Machine.Overlays.{
  count_presses, find_entry, use_key, put_entry, overlay_target, enable_overlay,
  process_overlayable_key,
}

-- Each key has one entry at most, with a press that is not released.
abbrev pub IsTable : List OverlaidKey → Type 0
IsTable [] = Unit
IsTable (e ∷ l) = (e.old ≢ 0 → (find_entry l e.old ≡ none) × (0 < e.refcnt)) × IsTable l

-- The map: where a key is overlaid, its target and the presses to be released.
abbrev pub Overlaid : Type 0
Overlaid = Option (KeyRef × ℕ)

abbrev pub view_entry : Option OverlaidKey → Overlaid
view_entry none = none
view_entry (some e) = some (e.new, e.refcnt)

abbrev pub view : List OverlaidKey → ℕ → Overlaid
view l a = view_entry (find_entry l a)

-- What an event of a key does to its place in the map.
abbrev pub use_view : Overlaid → Direction → Overlaid
use_view none d = none
use_view (some (key, n)) d =
    let left = count_presses d n in if left == 0 then none else some (key, left)

abbrev pub step_view : KeyRef → Overlaid → Direction → Overlaid
step_view target (some held) d = use_view (some held) d
step_view target none down = some (target, 1)
step_view target none _ = none

-- The key that takes part in the event.
abbrev pub stands_for : KeyRef → KeyRef → Overlaid → Direction → KeyRef
stands_for key target (some (new, n)) d = new
stands_for key target none down = target
stands_for key target none _ = key

find_entry-old :
    (l : List OverlaidKey) (a : ℕ) {e : OverlaidKey} → find_entry l a ≡ some e → e.old ≡ a
unfolding find_entry
find_entry-old [] a h = absurd (ground arith)
find_entry-old (x ∷ l) a {e} h = elim (Bool-cases (x.old == a)) [
  | inl t ↦ ground arith
  | inr f ↦ find_entry-old l a (rw f at h)
]

view-use_key :
    (l : List OverlaidKey) (a b : ℕ) (d : Direction)
    → IsTable l
    → a ≢ 0
    → b ≢ 0
    → view (use_key l a d) b ≡ (if a == b then use_view (view l a) d else view l b)
unfolding find_entry use_key
view-use_key [] a b d t p q = ground arith
view-use_key (x ∷ l) a b d t p q = elim (Bool-cases (x.old == a)) [
  | inl s ↦
      let live : x.old ≢ 0 = ground arith in
      let same : x.old ≡ a = ground arith in
      let missing : find_entry l a ≡ none = rw (← same) (t.0 live).0 in
      rw s (ground (arith, missing))
  | inr s ↦ rw s (ground (arith, view-use_key l a b d t.1 p q))
]

find_entry-use_key :
    (l : List OverlaidKey) (a b : ℕ) (d : Direction)
    → find_entry l b ≡ none
    → b ≢ 0
    → find_entry (use_key l a d) b ≡ none
unfolding find_entry use_key
find_entry-use_key [] a b d h q = refl
find_entry-use_key (x ∷ l) a b d h q = elim (Bool-cases (x.old == b)) [
  | inl s ↦ absurd (ground arith)
  | inr s ↦ elim (Bool-cases (x.old == a)) [
    | inl u ↦ rw u (ground arith)
    | inr u ↦ rw u (rw s (find_entry-use_key l a b d (rw s at h) q))
  ]
]

use_key-IsTable :
    (l : List OverlaidKey) (a : ℕ) (d : Direction) → IsTable l → a ≢ 0 → IsTable (use_key l a d)
unfolding use_key
use_key-IsTable [] a d t p = t
use_key-IsTable (x ∷ l) a d t p = elim (Bool-cases (x.old == a)) [
  | inl s ↦
      let old : x.old ≢ 0 = ground arith in
      rw s (
        λ live. elim (Bool-cases (count_presses d x.refcnt == 0)) [
          | inl z ↦ absurd (live (rw z refl))
          | inr nz ↦ rw nz ((t.0 old).0, ground arith)
        ],
        t.1,
      )
  | inr s ↦ rw s (
    (λ live. (find_entry-use_key l a x.old d (t.0 live).0 live, (t.0 live).1)),
    use_key-IsTable l a d t.1 p,
  )
]

view-put_entry :
    (l : List OverlaidKey) (new : OverlaidKey) (b : ℕ)
    → new.old ≢ 0
    → b ≢ 0
    → find_entry l new.old ≡ none
    → view (put_entry l new) b ≡ (if new.old == b then some (new.new, new.refcnt) else view l b)
unfolding find_entry put_entry
view-put_entry [] new b p q h = ground arith
view-put_entry (x ∷ l) new b p q h = elim (Bool-cases (x.old == new.old)) [
  | inl s ↦ absurd (ground arith)
  | inr s ↦ elim (Bool-cases (x.old == 0)) [
    | inl z ↦ rw z (ground arith)
    | inr z ↦ rw z (ground (arith, view-put_entry l new b p q (rw s at h)))
  ]
]

find_entry-put_entry :
    (l : List OverlaidKey) (new : OverlaidKey) (b : ℕ)
    → find_entry l b ≡ none
    → new.old ≢ b
    → find_entry (put_entry l new) b ≡ none
unfolding find_entry put_entry
find_entry-put_entry [] new b h q = ground arith
find_entry-put_entry (x ∷ l) new b h q = elim (Bool-cases (x.old == b)) [
  | inl s ↦ absurd (ground arith)
  | inr s ↦ elim (Bool-cases (x.old == 0)) [
    | inl z ↦ rw z (ground arith)
    | inr z ↦ rw z (rw s (find_entry-put_entry l new b (rw s at h) q))
  ]
]

put_entry-IsTable :
    (l : List OverlaidKey) (new : OverlaidKey)
    → IsTable l
    → find_entry l new.old ≡ none
    → 0 < new.refcnt
    → IsTable (put_entry l new)
unfolding find_entry put_entry
put_entry-IsTable [] new t h c = (λ live. (refl, c), tt)
put_entry-IsTable (x ∷ l) new t h c = elim (Bool-cases (x.old == new.old)) [
  | inl s ↦ absurd (ground arith)
  | inr s ↦
      let h' : find_entry l new.old ≡ none = rw s at h in
      elim (Bool-cases (x.old == 0)) [
        | inl z ↦ rw z (λ live. (h', c), t.1)
        | inr z ↦ rw z (
          λ live. (
            find_entry-put_entry l new x.old (t.0 live).0 (λ e. absurd (ground arith)),
            (t.0 live).1,
          ),
          put_entry-IsTable l new t.1 h' c,
        )
      ]
]

module _ (keymap : Keymap) where
  -- What an event of the key does to the map, where `target` is what its overlays stand for now.
  pub record IsRefined (sm : Machine) (key : KeyRef) (d : Direction) (r : Machine × KeyRef)
      : Type 0 where
    pub table : IsTable r.0.overlaid_keys
    pub result :
        r.1 ≡ stands_for key (overlay_target keymap sm key) (view sm.overlaid_keys key.address) d
    pub views :
        (b : ℕ)
        → b ≢ 0
        → view r.0.overlaid_keys b ≡ (
            if key.address == b
            then step_view (overlay_target keymap sm key) (view sm.overlaid_keys key.address) d
            else view sm.overlaid_keys b)

  kept_out :
      (sm : Machine) (key : KeyRef) (b : ℕ)
      → find_entry sm.overlaid_keys key.address ≡ none
      → view sm.overlaid_keys b ≡ (if key.address == b then none else view sm.overlaid_keys b)
  kept_out sm key b e = elim (Bool-cases (key.address == b)) [
    | inl t ↦ let same : key.address ≡ b = ground arith in rw (t, ← same) (rw e refl)
    | inr f ↦ rw f refl
  ]

  enable_overlay-IsRefined :
      (sm : Machine) (key : KeyRef) (d : Direction)
      → IsTable sm.overlaid_keys
      → key.address ≢ 0
      → find_entry sm.overlaid_keys key.address ≡ none
      → IsRefined sm key d (enable_overlay keymap sm key d)
  unfolding enable_overlay
  enable_overlay-IsRefined sm key down t p e = record {
    table = put_entry-IsTable sm.overlaid_keys _ t e (omega arith);
    result = rw e refl;
    views = λ b q. view-put_entry sm.overlaid_keys _ b p q e ∙ rw e refl;
  }
  enable_overlay-IsRefined sm key up t p e = record {
    table = t;
    result = rw e refl;
    views = λ b q. kept_out sm key b e ∙ rw e refl;
  }
  enable_overlay-IsRefined sm key repeated t p e = record {
    table = t;
    result = rw e refl;
    views = λ b q. kept_out sm key b e ∙ rw e refl;
  }

  -- An event of an overlayable key on the table of overlaid keys, as a map from keys to targets:
  -- where each key has one entry at most, an overlaid key stands for the target that it got with
  -- its first press until all its presses are released, whatever happens to the overlays
  -- meanwhile; a press of another key gives it the target of its overlays now; the places of the
  -- other keys stay, and each key still has one entry at most.
  pub process_overlayable_key-refines :
      (sm : Machine) (key : KeyRef) (d : Direction)
      → IsTable sm.overlaid_keys
      → key.address ≢ 0
      → IsRefined sm key d (process_overlayable_key keymap sm key d)
  unfolding process_overlayable_key
  process_overlayable_key-refines sm key d t p =
      elim (Option-cases (find_entry sm.overlaid_keys key.address)) [
        | inl e ↦ rw (e, process_overlayable_key) (enable_overlay-IsRefined sm key d t p e)
        | inr (entry, e) ↦
            rw (e, process_overlayable_key)
              (record {
                table = use_key-IsTable sm.overlaid_keys key.address d t p;
                result = rw e refl;
                views = λ b q. view-use_key sm.overlaid_keys key.address b d t p q ∙ rw e refl;
              })
      ]

  -- What can happen to a machine while the key `a` is held, from one count of presses that are
  -- still to be released to the next.
  pub data HeldStep (a : ℕ) : ℕ → Machine → ℕ → Machine → Type 0 where
    press :
        (sm : Machine) (key : KeyRef) (n : ℕ)
        → key.address ≡ a
        → HeldStep a n sm (suc n) (process_overlayable_key keymap sm key down).0
    repeat :
        (sm : Machine) (key : KeyRef) (n : ℕ)
        → key.address ≡ a
        → HeldStep a n sm n (process_overlayable_key keymap sm key repeated).0
    release :
        (sm : Machine) (key : KeyRef) (n : ℕ)
        → key.address ≡ a
        → HeldStep a (suc (suc n)) sm (suc n) (process_overlayable_key keymap sm key up).0
    other_key :
        (sm : Machine) (key : KeyRef) (d : Direction) (n : ℕ)
        → key.address ≢ a
        → key.address ≢ 0
        → HeldStep a n sm n (process_overlayable_key keymap sm key d).0
    change_overlays :
        (sm : Machine) (order enabled n : ℕ)
        → HeldStep a n sm n (record sm { overlays_order = order; overlays_enabled = enabled })

  pub data HeldReach (a : ℕ) (n : ℕ) (sm : Machine) : ℕ → Machine → Type 0 where
    here : HeldReach a n sm n sm
    next :
        {m k : ℕ} {t u : Machine} → HeldReach a n sm m t → HeldStep a m t k u → HeldReach a n sm k u

  -- The key is overlaid by `target`, with `n` presses to be released.
  pub record IsOverlaid (a : ℕ) (target : KeyRef) (n : ℕ) (sm : Machine) : Type 0 where
    pub table : IsTable sm.overlaid_keys
    pub held : view sm.overlaid_keys a ≡ some (target, n)
    pub positive : 0 < n

  -- An event of the held key itself.
  own_event :
      (sm : Machine) (key : KeyRef) (d : Direction) {a : ℕ} {target : KeyRef} {n : ℕ}
      → a ≢ 0
      → key.address ≡ a
      → IsOverlaid a target n sm
      → IsTable (process_overlayable_key keymap sm key d).0.overlaid_keys
        × ((process_overlayable_key keymap sm key d).1 ≡ target)
        × (view (process_overlayable_key keymap sm key d).0.overlaid_keys a
            ≡ use_view (some (target, n)) d)
  own_event sm key d {a} {target} {n} p e o =
      let r = process_overlayable_key-refines sm key d o.table (rw e p) in
      let held : view sm.overlaid_keys key.address ≡ some (target, n) = rw e o.held in
      let own : (key.address == a) ≡ true = ground arith in
      (r.table, r.result ∙ rw held refl, r.views a p ∙ rw (own, held) refl)

  HeldStep-IsOverlaid :
      {a n m : ℕ} {sm t : Machine} (target : KeyRef)
      → a ≢ 0
      → HeldStep a n sm m t
      → IsOverlaid a target n sm
      → IsOverlaid a target m t
  unfolding count_presses
  HeldStep-IsOverlaid target p (press sm key n e) o =
      let (table, result, held) = own_event sm key down p e o in
      record { table = table; held = held ∙ ground arith; positive = omega arith }
  HeldStep-IsOverlaid target p (repeat sm key n e) o =
      let (table, result, held) = own_event sm key repeated p e o in
      record { table = table; held = held ∙ ground arith; positive = o.positive }
  HeldStep-IsOverlaid target p (release sm key n e) o =
      let (table, result, held) = own_event sm key up p e o in
      record { table = table; held = held ∙ ground arith; positive = omega arith }
  HeldStep-IsOverlaid {a = a} target p (other_key sm key d n away q) o =
      let r = process_overlayable_key-refines sm key d o.table q in
      let other : (key.address == a) ≡ false = ground arith in
      record { table = r.table; held = r.views a p ∙ rw other o.held; positive = o.positive }
  HeldStep-IsOverlaid target p (change_overlays sm order enabled n) o = record {
    table = o.table;
    held = o.held;
    positive = o.positive;
  }

  HeldReach-IsOverlaid :
      {a n : ℕ} {sm : Machine} {m : ℕ} {t : Machine} (target : KeyRef)
      → a ≢ 0
      → HeldReach a n sm m t
      → IsOverlaid a target n sm
      → IsOverlaid a target m t
  HeldReach-IsOverlaid target p here o = o
  HeldReach-IsOverlaid target p (next r s) o =
      HeldStep-IsOverlaid target p s (HeldReach-IsOverlaid target p r o)

  -- While a key has presses that are not released, through any sequence of further presses,
  -- repetitions and releases of it, events of other overlayable keys and changes of the overlays,
  -- each of its events still goes to the target it had; its place is freed with the release of the
  -- last press and no sooner.
  pub held_key-keeps_target :
      {a n : ℕ} {sm : Machine} {m : ℕ} {t : Machine} (target key : KeyRef) (d : Direction)
      → a ≢ 0
      → IsOverlaid a target n sm
      → HeldReach a n sm m t
      → key.address ≡ a
      → ((process_overlayable_key keymap t key d).1 ≡ target)
        × (view (process_overlayable_key keymap t key d).0.overlaid_keys a
            ≡ (if count_presses d m == 0 then none else some (target, count_presses d m)))
  held_key-keeps_target {t = t} target key d p o r e =
      let (table, result, held) = own_event t key d p e (HeldReach-IsOverlaid target p r o) in
      (result, held)
