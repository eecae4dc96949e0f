-- ===== src/Compose/Insert/Grow.antt =====
-- One creation of a node, or the step to an existing one.
use libxkbcommon.Base.{
  ℕ, suc, ◌+◌, ◌-◌, ◌≤◌, ◌<◌, ◌≡◌, ◌≢◌, inl, inr, refl, sym, ap, ◌∙◌, arith, Bool-cases, Option,
  some, List, [], ◌∷◌, ◌++◌, length, get_elem?, set, ◌==◌, length-set, length-append,
  get_elem?-set_self, get_elem?-set_ne, lt_of_get_elem?-some,
}
use libxkbcommon.Compose.{Node, Side, lo, hi, eq, with_side, link, new_node, grow}
use libxkbcommon.Compose.Trie.{
  IsBehind, child, HasChildren, IsAscending, get_elem?-append_left, get_elem?-append_last,
  IsBehind-mono,
}

with_side-HasChildren :
    (side : Side) (node : Node) (n i j : ℕ)
    → HasChildren n i node
    → IsBehind n i j
    → HasChildren n i (with_side side node j)
with_side-HasChildren lo node n i j h b lo = b
with_side-HasChildren lo node n i j h b hi = h hi
with_side-HasChildren lo node n i j h b eq = h eq
with_side-HasChildren hi node n i j h b lo = h lo
with_side-HasChildren hi node n i j h b hi = b
with_side-HasChildren hi node n i j h b eq = h eq
with_side-HasChildren eq node n i j h b lo = h lo
with_side-HasChildren eq node n i j h b hi = h hi
with_side-HasChildren eq node n i j h b eq = elim (Bool-cases node.is_leaf) [
  | inl leaf ↦ rw leaf (inl refl)
  | inr internal ↦ rw internal b
]

new_node-HasChildren : (k n i : ℕ) → HasChildren n i (new_node k)
new_node-HasChildren k n i lo = inl refl
new_node-HasChildren k n i hi = inl refl
new_node-HasChildren k n i eq = inl refl

-- The last node of an array, whose other nodes may have it as a child already.
pub append-IsAscending :
    (l : List Node) (k : ℕ)
    → ((i : ℕ) (node : Node) → get_elem? l i ≡ some node → HasChildren (suc (length l)) i node)
    → IsAscending (l ++ (new_node k ∷ []))
append-IsAscending l k h i node e side =
    let size : length (l ++ (new_node k ∷ [])) ≡ suc (length l) =
      omega (arith, length-append l (new_node k ∷ [])) in
    rw size (elim (Bool-cases (i == length l)) [
      | inl t ↦
          let last : i ≡ length l = ground arith in
          let new : new_node k ≡ node =
            ground (arith, get_elem?-append_last l (new_node k), last) in
          rw (← new) (new_node-HasChildren k (suc (length l)) i side)
      | inr f ↦
          let below : i < length l =
            ground (arith, lt_of_get_elem?-some (l ++ (new_node k ∷ [])) i e, size) in
          h i node (sym (get_elem?-append_left l (new_node k ∷ []) i below) ∙ e) side
    ])

-- What the loop needs to find at the offset `curr` for the keysym `k` with `rest` behind it.
pub record IsReady (fuel : ℕ) (nodes : List Node) (curr : ℕ) (slot : Option (Side × ℕ)) (k : ℕ)
    (rest : List ℕ) : Type 0 where
  pub ascending : IsAscending (grow nodes curr slot k).0
  pub inside : (grow nodes curr slot k).1 < length (grow nodes curr slot k).0
  pub positive : 0 < (grow nodes curr slot k).1
  pub new :
      curr ≡ 0
      → (get_elem? (grow nodes curr slot k).0 (grow nodes curr slot k).1 ≡ some (new_node k))
        × (length (grow nodes curr slot k).0 ≡ suc (grow nodes curr slot k).1)
  pub bound_new : curr ≡ 0 → suc (length rest) ≤ fuel
  pub bound_old :
      curr ≢ 0
      → length (grow nodes curr slot k).0 - (grow nodes curr slot k).1 + suc (length rest) ≤ fuel

-- A step from the node at `c` down one of its sides, to an existing child or to a new node.
pub record IsStep (nodes : List Node) (c : ℕ) (node : Node) (side : Side) (k : ℕ) : Type 0 where
  pub here :
      get_elem? (grow nodes (child side node) (some (side, c)) k).0 c
      ≡ some (with_side side node (grow nodes (child side node) (some (side, c)) k).1)
  pub before :
      (i : ℕ)
      → i < c
      → get_elem? (grow nodes (child side node) (some (side, c)) k).0 i ≡ get_elem? nodes i
  pub behind : c < (grow nodes (child side node) (some (side, c)) k).1

module _ (nodes : List Node) (c : ℕ) (node : Node) (side : Side) (k : ℕ) (a : IsAscending nodes)
    (e : get_elem? nodes c ≡ some node) where
  linked : List Node
  linked = set nodes c (with_side side node (length nodes))

  grow_new :
      child side node ≡ 0
      → grow nodes (child side node) (some (side, c)) k
        ≡ (linked ++ (new_node k ∷ []), length nodes)
  unfolding grow linked
  grow_new z = rw (z, link, e) refl

  grow_old :
      child side node ≢ 0
      → grow nodes (child side node) (some (side, c)) k ≡ (nodes, child side node)
  unfolding grow
  grow_old nz = elim (Bool-cases (child side node == 0)) [
    | inl t ↦ absurd (nz (ground arith))
    | inr f ↦ rw f refl
  ]

  inside_c : c < length nodes
  inside_c = lt_of_get_elem?-some nodes c e

  linked-length : length linked ≡ length nodes
  unfolding linked
  linked-length = length-set nodes c (with_side side node (length nodes))

  linked_here : get_elem? linked c ≡ some (with_side side node (length nodes))
  unfolding linked
  linked_here = get_elem?-set_self nodes c (with_side side node (length nodes)) inside_c

  linked_other : (i : ℕ) → c ≢ i → get_elem? linked i ≡ get_elem? nodes i
  unfolding linked
  linked_other i h = get_elem?-set_ne nodes c i (with_side side node (length nodes)) h

  linked-HasChildren :
      (i : ℕ) (x : Node) → get_elem? linked i ≡ some x → HasChildren (suc (length linked)) i x
  linked-HasChildren i x f other = rw linked-length (elim (Bool-cases (c == i)) [
    | inl t ↦
        let same : c ≡ i = ground arith in
        let put : with_side side node (length nodes) ≡ x = ground (arith, linked_here, same) in
        rw (← put, ← same)
          (with_side-HasChildren side node (suc (length nodes)) c (length nodes)
            (λ s.
              IsBehind-mono (length nodes) (suc (length nodes)) c (child s node) (omega arith)
                (a c node e s))
            (inr (inside_c, omega arith)) other)
    | inr n ↦
        let differ : c ≢ i = λ q. absurd (ground arith) in
        IsBehind-mono (length nodes) (suc (length nodes)) i (child other x) (omega arith)
          (a i x (sym (linked_other i differ) ∙ f) other)
  ])

  -- The step down a side without a child makes one.
  IsStep-new : child side node ≡ 0 → IsStep nodes c node side k
  IsStep-new z = record {
    here = rw (grow_new z) (
        get_elem?-append_left linked (new_node k ∷ []) c (omega (arith, linked-length, inside_c))
        ∙ linked_here);
    before = λ i h. rw (grow_new z) (
        get_elem?-append_left linked (new_node k ∷ []) i (omega (arith, linked-length, inside_c))
        ∙ linked_other i (λ q. absurd (omega arith)));
    behind = rw (grow_new z) inside_c;
  }

  -- The step down a side with a child goes there.
  IsStep-old :
      child side node ≢ 0
      → with_side side node (child side node) ≡ node
      → IsStep nodes c node side k
  IsStep-old nz keep = record {
    here = rw (grow_old nz) (e ∙ ap some (sym keep));
    before = λ i h. rw (grow_old nz) refl;
    behind = rw (grow_old nz) (elim (a c node e side) [ inl z ↦ absurd (nz z) | inr (p, q) ↦ p ]);
  }

  IsReady-new :
      (fuel : ℕ) (rest : List ℕ)
      → child side node ≡ 0
      → length nodes - c + suc (length rest) ≤ suc fuel
      → IsReady fuel nodes (child side node) (some (side, c)) k rest
  IsReady-new fuel rest z b =
      let size : length (linked ++ (new_node k ∷ [])) ≡ suc (length nodes) =
        omega (arith, length-append linked (new_node k ∷ []), linked-length) in
      let last : get_elem? (linked ++ (new_node k ∷ [])) (length nodes) ≡ some (new_node k) =
        ap (get_elem? (linked ++ (new_node k ∷ []))) (sym linked-length)
        ∙ get_elem?-append_last linked (new_node k) in
      record {
        ascending = rw (grow_new z) (append-IsAscending linked k linked-HasChildren);
        inside = rw (grow_new z) (omega (arith, size));
        positive = rw (grow_new z) (omega (arith, inside_c));
        new = λ h. rw (grow_new z) (last, size);
        bound_new = λ h. omega (arith, inside_c);
        bound_old = λ h. absurd (h z);
      }

  IsReady-old :
      (fuel : ℕ) (rest : List ℕ)
      → child side node ≢ 0
      → length nodes - c + suc (length rest) ≤ suc fuel
      → IsReady fuel nodes (child side node) (some (side, c)) k rest
  IsReady-old fuel rest nz b = elim (a c node e side) [
    | inl z ↦ absurd (nz z)
    | inr (p, q) ↦ record {
      ascending = rw (grow_old nz) a;
      inside = rw (grow_old nz) q;
      positive = rw (grow_old nz) (omega arith);
      new = λ h. absurd (nz h);
      bound_new = λ h. absurd (nz h);
      bound_old = λ h. rw (grow_old nz) (omega arith);
    }
  ]

  pub step :
      (fuel : ℕ) (rest : List ℕ)
      → with_side side node (child side node) ≡ node
      → length nodes - c + suc (length rest) ≤ suc fuel
      → IsStep nodes c node side k × IsReady fuel nodes (child side node) (some (side, c)) k rest
  step fuel rest keep b = elim (Bool-cases (child side node == 0)) [
    | inl t ↦
        let z : child side node ≡ 0 = ground arith in (IsStep-new z, IsReady-new fuel rest z b)
    | inr f ↦
        let nz : child side node ≢ 0 = λ z. absurd (ground arith) in
        (IsStep-old nz keep, IsReady-old fuel rest nz b)
  ]
