-- ===== src/State/Frame.antt =====
-- What no handler of src/state.c touches: base modifiers and key counts change only in the loops
-- of `xkb_state_update_key`; and what every handler keeps: masks stay within 32 bits.
pub mod Handlers
pub mod Events
pub mod Entry
use libxkbcommon.Base.{
  ℕ, zero, suc, ◌<◌, ◌≡◌, refl, ◌∙◌, List, [], ◌∷◌, ◌++◌, Option, some, get_elem?, set, arith,
}
use libxkbcommon.State.Types.{
  Components, FilterFunc, mod_set_func, Filter, ServerState, FilterResult,
}

-- The parts of the state that belong to the entry points.
pub record Keeps (s t : ServerState) : Type 0 where
  pub base_mods : t.components.base_mods ≡ s.components.base_mods
  pub counts : t.mod_key_count ≡ s.mod_key_count
  pub mode : t.mode ≡ s.mode
  pub policy : t.policy ≡ s.policy
  pub redirect_group : t.redirect_group ≡ s.redirect_group
  pub flags : t.flags ≡ s.flags

-- The masks that a filter hands to the loops fit 32 bits.
pub record IsSafe (f : Filter) : Type 0 where
  pub mask_word : f.action.mask < 4294967296
  pub priv_word : f.func ≡ mod_set_func → f.priv < 4294967296

abbrev pub AllSafe : List Filter → Type 0
AllSafe [] = Unit
AllSafe (f ∷ rest) = IsSafe f × AllSafe rest

-- The masks of the state, of its requests and of its filters fit 32 bits.
pub record IsSound (s : ServerState) : Type 0 where
  pub base_word : s.components.base_mods < 4294967296
  pub latched_word : s.components.latched_mods < 4294967296
  pub locked_word : s.components.locked_mods < 4294967296
  pub set_word : s.set_mods < 4294967296
  pub clear_word : s.clear_mods < 4294967296
  pub filters : AllSafe s.filters

-- A step from `s` to `t` that keeps all of this.
pub record IsFrame (s t : ServerState) : Type 0 where
  pub keeps : Keeps s t
  pub sound : IsSound t

-- The same for a handler, which returns its filter and leaves the others alone.
pub record IsFramed (s : ServerState) (r : FilterResult) : Type 0 where
  pub keeps : Keeps s r.state
  pub base_word : r.state.components.base_mods < 4294967296
  pub latched_word : r.state.components.latched_mods < 4294967296
  pub locked_word : r.state.components.locked_mods < 4294967296
  pub set_word : r.state.set_mods < 4294967296
  pub clear_word : r.state.clear_mods < 4294967296
  pub filters : AllSafe r.state.filters
  pub safe : IsSafe r.filter

pub AllSafe-get_elem? :
    (l : List Filter) (i : ℕ) {f : Filter} → AllSafe l → get_elem? l i ≡ some f → IsSafe f
AllSafe-get_elem? [] i {f} h e = absurd (ground arith)
AllSafe-get_elem? (g ∷ l) zero {f} h e = let same : g ≡ f = cc in rw (← same) h.0
AllSafe-get_elem? (g ∷ l) (suc i) {f} h e = AllSafe-get_elem? l i h.1 e

pub AllSafe-set :
    (l : List Filter) (i : ℕ) (f : Filter) → AllSafe l → IsSafe f → AllSafe (set l i f)
AllSafe-set [] i f h k = h
AllSafe-set (g ∷ l) zero f h k = (k, h.1)
AllSafe-set (g ∷ l) (suc i) f h k = (h.0, AllSafe-set l i f h.1 k)

pub AllSafe-append : (l : List Filter) (f : Filter) → AllSafe l → IsSafe f → AllSafe (l ++ (f ∷ []))
AllSafe-append [] f h k = (k, tt)
AllSafe-append (g ∷ l) f h k = (h.0, AllSafe-append l f h.1 k)

pub Keeps-trans : {s t u : ServerState} → Keeps s t → Keeps t u → Keeps s u
Keeps-trans a b = record {
  base_mods = b.base_mods ∙ a.base_mods;
  counts = b.counts ∙ a.counts;
  mode = b.mode ∙ a.mode;
  policy = b.policy ∙ a.policy;
  redirect_group = b.redirect_group ∙ a.redirect_group;
  flags = b.flags ∙ a.flags;
}
