-- ===== src/Compose/Feed.antt =====
-- Following a path of the trie keysym by keysym (`xkb_compose_state_feed`,
-- `xkb_compose_state_get_status`, `xkb_compose_state_get_one_sym`).
use libxkbcommon.Base.{
  ℕ, zero, suc, ◌+◌, ◌≤◌, ◌<◌, ◌≡◌, inl, inr, refl, ap, ◌∙◌, arith, true, false, Bool-cases, Option,
  some, List, [], ◌∷◌, length, get_elem?, ltb, ◌==◌, lt_of_get_elem?-some, lt→ltb,
}
use libxkbcommon.Compose.{
  Node, Table, keysym_of, add_production, ComposeState, keysym_is_modifier, search, first_child,
  feed, reset, composed, leaf_at, get_status, get_one_sym, feed_all,
}
use libxkbcommon.Compose.Trie.{PathTo, lower, higher, down, result}
use libxkbcommon.Compose.Insert.Root.{IsTrie, add_production-finds}

-- Where the walk from `c` for the keysym `k` ends on a path: at a node that goes on, or at the
-- result.
pub record IsFound (nodes : List Node) (P : Node → Type 0) (c k : ℕ) (rest : List ℕ) : Type 0 where
  pub offset : ℕ
  pub node : Node
  pub at : get_elem? nodes offset ≡ some node
  pub positive : 0 < offset
  pub found : (fuel : ℕ) → length nodes ≤ fuel + c → search fuel nodes k c ≡ offset
  pub last : rest ≡ [] → P node
  pub goes_on :
      (k' : ℕ) (more : List ℕ)
      → rest ≡ k' ∷ more
      → (node.is_leaf ≡ false) × (0 < node.payload) × PathTo nodes P node.payload (k' ∷ more)

module _ (nodes : List Node) where
  search_here :
      (c k fuel : ℕ) (node : Node)
      → 0 < c
      → get_elem? nodes c ≡ some node
      → node.keysym ≡ k
      → length nodes ≤ fuel + c
      → search fuel nodes k c ≡ c
  unfolding search
  search_here c k zero node h e same b = absurd (omega (arith, lt_of_get_elem?-some nodes c e))
  search_here c k (suc fuel) node h e same b = elim (Bool-cases (c == 0)) [
    | inl t ↦ absurd (ground arith)
    | inr f ↦ rw (f, e) (ground arith)
  ]

  search_lower :
      (c k fuel : ℕ) (node : Node)
      → 0 < c
      → get_elem? nodes c ≡ some node
      → k < node.keysym
      → search (suc fuel) nodes k c ≡ search fuel nodes k node.lokid
  unfolding search
  search_lower c k fuel node h e lt = elim (Bool-cases (c == 0)) [
    | inl t ↦ absurd (ground arith)
    | inr f ↦ rw (f, e, lt→ltb k node.keysym lt) refl
  ]

  search_higher :
      (c k fuel : ℕ) (node : Node)
      → 0 < c
      → get_elem? nodes c ≡ some node
      → node.keysym < k
      → search (suc fuel) nodes k c ≡ search fuel nodes k node.hikid
  unfolding search
  search_higher c k fuel node h e lt =
      let above : ltb k node.keysym ≡ false = ground arith in
      elim (Bool-cases (c == 0)) [
        | inl t ↦ absurd (ground arith)
        | inr f ↦ rw (f, e, above, lt→ltb node.keysym k lt) refl
      ]

  -- The walk finds the next keysym of a path.
  follow :
      {P : Node → Type 0} (c k : ℕ) (rest : List ℕ)
      → 0 < c
      → PathTo nodes P c (k ∷ rest)
      → IsFound nodes P c k rest
  follow {P = P} c k [] h (result c' k' node e same q) = record {
    offset = c;
    node = node;
    at = e;
    positive = h;
    found = λ fuel b. search_here c k fuel node h e same b;
    last = λ z. q;
    goes_on = λ k'' more z. absurd (ground arith);
  }
  follow {P = P} c k (k' ∷ rest) h (down _ _ _ _ node e same internal behind path) = record {
    offset = c;
    node = node;
    at = e;
    positive = h;
    found = λ fuel b. search_here c k fuel node h e same b;
    last = λ z. absurd (ground arith);
    goes_on = λ k'' more z. (internal, omega arith, rw (← z) path);
  }
  follow {P = P} c k rest h (lower _ _ _ node e lt behind path) =
      let next = follow node.lokid k rest (omega arith) path in
      record {
        offset = next.offset;
        node = next.node;
        at = next.at;
        positive = next.positive;
        found = λ fuel b. further fuel b next;
        last = next.last;
        goes_on = next.goes_on;
      }
    where
      further :
          (fuel : ℕ)
          → length nodes ≤ fuel + c
          → (next : IsFound nodes P node.lokid k rest) → search fuel nodes k c ≡ next.offset
      further zero b next = absurd (omega (arith, lt_of_get_elem?-some nodes c e))
      further (suc fuel) b next = search_lower c k fuel node h e lt ∙ next.found fuel (omega arith)
  follow {P = P} c k rest h (higher _ _ _ node e lt behind path) =
      let next = follow node.hikid k rest (omega arith) path in
      record {
        offset = next.offset;
        node = next.node;
        at = next.at;
        positive = next.positive;
        found = λ fuel b. further fuel b next;
        last = next.last;
        goes_on = next.goes_on;
      }
    where
      further :
          (fuel : ℕ)
          → length nodes ≤ fuel + c
          → (next : IsFound nodes P node.hikid k rest) → search fuel nodes k c ≡ next.offset
      further zero b next = absurd (omega (arith, lt_of_get_elem?-some nodes c e))
      further (suc fuel) b next = search_higher c k fuel node h e lt ∙ next.found fuel (omega arith)

-- A sequence without keysyms of modifiers, which feeding ignores.
abbrev pub NoModifiers : List ℕ → Type 0
NoModifiers [] = Unit
NoModifiers (k ∷ rest) = (keysym_is_modifier k ≡ false) × NoModifiers rest

module _ (nodes : List Node) where
  feed_found :
      {P : Node → Type 0} (s : ComposeState) (c k : ℕ) (rest : List ℕ)
      → first_child nodes s.context ≡ c
      → keysym_is_modifier k ≡ false
      → (f : IsFound nodes P c k rest)
      → (feed nodes s k).0 ≡ record { prev_context = s.context; context = f.offset }
  unfolding feed
  feed_found s c k rest start plain f =
      rw (plain, start)
        (ap (λ (x : ℕ). record s { prev_context = s.context; context = x })
          (f.found (length nodes) (omega arith)))

  first_child_internal :
      (c : ℕ) (node : Node)
      → 0 < c
      → get_elem? nodes c ≡ some node
      → node.is_leaf ≡ false
      → first_child nodes c ≡ node.payload
  unfolding first_child
  first_child_internal c node h e internal =
      let many : (length nodes == 1) ≡ false = ground (arith, lt_of_get_elem?-some nodes c e) in
      rw (e, internal, many) (ground arith)

  -- Feeding the keysyms of a path ends in its last node.
  feed_all-path :
      {P : Node → Type 0} (rest : List ℕ) (s : ComposeState) (c k : ℕ)
      → first_child nodes s.context ≡ c
      → 0 < c
      → NoModifiers (k ∷ rest)
      → PathTo nodes P c (k ∷ rest)
      → (node : Node) × (get_elem? nodes (feed_all nodes s (k ∷ rest)).context ≡ some node)
        × (0 < (feed_all nodes s (k ∷ rest)).context)
        × P node
  feed_all-path [] s c k start h plain path =
      let f = follow nodes c k [] h path in
      let fed = feed_found s c k [] start plain.0 f in
      rw fed (f.node, f.at, f.positive, f.last refl)
  feed_all-path (k' ∷ rest) s c k start h plain path =
      let f = follow nodes c k (k' ∷ rest) h path in
      let fed = feed_found s c k (k' ∷ rest) start plain.0 f in
      let (internal, behind, onward) = f.goes_on k' rest refl in
      rw (feed_all, fed)
        (feed_all-path rest (record { prev_context = s.context; context = f.offset }) f.node.payload
          k' (first_child_internal f.offset f.node f.positive f.at internal) behind plain.1 onward)

first_child_root :
    (nodes : List Node) (k : ℕ) (rest : List ℕ) {P : Node → Type 0}
    → IsTrie nodes
    → PathTo nodes P 1 (k ∷ rest)
    → first_child nodes 0 ≡ 1
unfolding first_child
first_child_root nodes k rest trie path =
    let f = follow nodes 1 k rest (omega arith) path in
    let many : (length nodes == 1) ≡ false =
      ground (arith, lt_of_get_elem?-some nodes f.offset f.at, f.positive) in
    rw (trie.dummy, many) refl

composed_at :
    (nodes : List Node) (s : ComposeState) (node : Node)
    → get_elem? nodes s.context ≡ some node
    → 0 < s.context
    → node.is_leaf ≡ true
    → (get_status nodes s ≡ composed) × (get_one_sym nodes s ≡ node.payload)
unfolding get_status get_one_sym
composed_at nodes s node e h leaf =
    let away : (s.context == 0) ≡ false = ground arith in
    rw (get_status, get_one_sym, leaf_at, away, e, leaf) (refl, refl)

-- In a trie that has the dummy leaf first and children behind their parents, a sequence of keysyms
-- that are not modifiers, once it is inserted below the limit on nodes, composes: fed from a reset
-- state it ends with the status `composed` and the keysym of its production, whatever sequences
-- the trie held before.
pub add_production-composes :
    (t : Table) (k : ℕ) (rest : List ℕ) (keysym : Option ℕ) (string : Option (List ℕ))
    → IsTrie t.nodes
    → length t.nodes + suc (length rest) < 8388608
    → NoModifiers (k ∷ rest)
    → (get_status
          (add_production t (record { lhs = k ∷ rest; keysym = keysym; string = string })).nodes
          (feed_all
            (add_production t (record { lhs = k ∷ rest; keysym = keysym; string = string })).nodes
            reset
            (k ∷ rest))
        ≡ composed)
      × (get_one_sym
            (add_production t (record { lhs = k ∷ rest; keysym = keysym; string = string })).nodes
            (feed_all
              (add_production t (record { lhs = k ∷ rest; keysym = keysym; string = string })).nodes
              reset
              (k ∷ rest))
          ≡ keysym_of keysym)
add_production-composes t k rest keysym string trie limit plain =
    let nodes : List Node =
      (add_production t (record { lhs = k ∷ rest; keysym = keysym; string = string })).nodes in
    let inserted = add_production-finds t k rest keysym string trie limit in
    let start = first_child_root nodes k rest inserted.1 inserted.0 in
    let (node, e, positive, leaf_result) =
      feed_all-path nodes rest reset 1 k start (omega arith) plain inserted.0 in
    let at_end =
      composed_at nodes (feed_all nodes reset (k ∷ rest)) node e positive leaf_result.leaf in
    (at_end.0, at_end.1 ∙ leaf_result.keysym)
