-- ===== src/Keymap/Wrap.antt =====
-- Group indices brought into range (`XkbWrapGroupIntoRange` of src/keymap-priv.c).
use native.Mathlib.Nat.{mod-lt, mod-add-div', mul-mod_left}
use libxkbcommon.Base.{
  ℕ, ◌+◌, ◌-◌, ◌*◌, ◌/◌, ◌%◌, ◌≤◌, ◌<◌, ◌≡◌, true, false, arith, is_negative, length,
}
use libxkbcommon.Keymap.{Policy, wrap, wrap_group_into_range, wrap_remainder, Key, effective_layout}

wrap_remainder-lt : (group n : ℕ) → 0 < n → wrap_remainder group n < n
unfolding wrap_remainder
wrap_remainder-lt group n h =
    ground (arith, mod-lt group {m = n} h, mod-lt (4294967296 - group) {m = n} h)

-- With at least one group the result is an index below the number of groups, whatever the
-- requested group, the policy and the redirection target.
pub wrap_group-lt :
    (group n : ℕ) (p : Policy) (number : ℕ) → 0 < n → wrap_group_into_range group n p number < n
unfolding wrap_group_into_range
wrap_group-lt group n wrap number h = ground (arith, wrap_remainder-lt group n h)
wrap_group-lt group n _ number h = ground arith

-- A remainder and what it lacks to a full group count make a multiple of it.
remainder_complement : (m n : ℕ) → 0 < n → (n - m % n + m) % n ≡ 0
remainder_complement m n h =
    let e : n - m % n + m ≡ (m / n + 1) * n = grind (arith, mod-add-div' m n, mod-lt m {m = n} h) in
    rw e (mul-mod_left (m / n + 1) n)

-- Under the wrapping policy and with 1 to 32 groups the result is the Euclidean remainder of the signed group by the
-- number of groups: of `group` itself where the pattern is not negative, and for the negative
-- value -(2 ^ 32 - group) the index which that many groups above leads back to group 0.
pub wrap_group_remainder :
    (group n number : ℕ)
    → group < 4294967296
    → 0 < n
    → n ≤ 32
    → (is_negative group ≡ false → wrap_group_into_range group n wrap number ≡ group % n)
      × (is_negative group ≡ true
          → (wrap_group_into_range group n wrap number + (4294967296 - group)) % n ≡ 0)
unfolding wrap_group_into_range
wrap_group_remainder group n number w h k =
    ((λ e. grind arith), (λ e. ground (arith, remainder_complement (4294967296 - group) n h)))

-- With 1 to 32 groups, a group that is in range is kept, and so the result is a fixed point under
-- every policy.
pub wrap_group_idem :
    (group n : ℕ) (p q : Policy) (number number' : ℕ)
    → 0 < n
    → n ≤ 32
    → wrap_group_into_range (wrap_group_into_range group n p number) n q number'
      ≡ wrap_group_into_range group n p number
wrap_group_idem group n p q number number' h k =
    in_range (wrap_group_into_range group n p number) (wrap_group-lt group n p number h)
  where
    in_range : (r : ℕ) → r < n → wrap_group_into_range r n q number' ≡ r
    in_range r lt = unfold wrap_group_into_range in ground arith

-- The layout that a key gives to an effective group is stable.
pub effective_layout_idem :
    (key : Key) (layout : ℕ)
    → 0 < length key.groups
    → length key.groups ≤ 32
    → effective_layout key (effective_layout key layout) ≡ effective_layout key layout
unfolding effective_layout
effective_layout_idem key layout h k =
    wrap_group_idem layout (length key.groups) key.policy key.policy key.group_number
      key.group_number h k
