-- ===== src/Compose/Insert/Loop.antt =====
-- The loop of `add_production`.
use libxkbcommon.Base.{
  ℕ, zero, suc, ◌+◌, ◌-◌, ◌≤◌, ◌<◌, ◌≡◌, ◌≢◌, inl, inr, refl, arith, Bool-cases, Option, some, List,
  [], ◌∷◌, length, get_elem?, set, ltb, ◌==◌, if◌then◌else◌, length-set, get_elem?-set_self,
  get_elem?-some_of_lt, ltb→lt,
}
use libxkbcommon.Compose.{
  Node, Side, lo, hi, eq, with_side, new_node, grow, open_node, Table, Production, finish,
  insert_loop, is_empty,
}
use libxkbcommon.Compose.Trie.{child, IsAscending, set-IsAscending}
use libxkbcommon.Compose.Insert.Grow.{IsReady, step}
use libxkbcommon.Compose.Insert.Round.{
  IsInserted, lower-IsInserted, higher-IsInserted, next-IsInserted, open_node-child,
  open_node-HasChildren, finish-IsInserted,
}

-- One round of the loop on the node that it looks at.
insert_loop-suc :
    (fuel : ℕ) (t : Table) (k : ℕ) (rest : List ℕ) (curr : ℕ) (slot : Option (Side × ℕ))
    (p : Production) (node : Node)
    → get_elem? (grow t.nodes curr slot k).0 (grow t.nodes curr slot k).1 ≡ some node
    → insert_loop (suc fuel) t (k ∷ rest) curr slot p ≡ (
        let g = grow t.nodes curr slot k in
        let t1 = record t { nodes = g.0 } in
        if ltb k node.keysym
        then insert_loop fuel t1 (k ∷ rest) node.lokid (some (lo, g.1)) p
        else if ltb node.keysym k
        then insert_loop fuel t1 (k ∷ rest) node.hikid (some (hi, g.1)) p
        else if is_empty rest
        then finish t1 g.1 node p
        else insert_loop fuel
            (record t { nodes = set g.0 g.1 (open_node node) })
            rest
            (open_node node).payload
            (some (eq, g.1))
            p)
unfolding insert_loop
insert_loop-suc fuel t k rest curr slot p node e = rw (insert_loop, e) refl

-- A new node has the keysym it was made for.
old_of_different :
    (fuel : ℕ) (nodes : List Node) (curr : ℕ) (slot : Option (Side × ℕ)) (k : ℕ) (rest : List ℕ)
    (node : Node)
    → IsReady fuel nodes curr slot k rest
    → get_elem? (grow nodes curr slot k).0 (grow nodes curr slot k).1 ≡ some node
    → node.keysym ≢ k
    → curr ≢ 0
old_of_different fuel nodes curr slot k rest node r e differ z =
    let made : new_node k ≡ node = ground (arith, (r.new z).0) in differ (rw (← made) refl)

room :
    (fuel : ℕ) (nodes : List Node) (curr : ℕ) (slot : Option (Side × ℕ)) (k : ℕ) (rest : List ℕ)
    → IsReady (suc fuel) nodes curr slot k rest
    → length (grow nodes curr slot k).0 - (grow nodes curr slot k).1 + length rest ≤ suc fuel
room fuel nodes curr slot k rest r = elim (Bool-cases (curr == 0)) [
  | inl t ↦ let z : curr ≡ 0 = ground arith in omega (arith, (r.new z).1, r.bound_new z)
  | inr f ↦ let nz : curr ≢ 0 = λ z. absurd (ground arith) in omega (arith, r.bound_old nz)
]

no_fuel :
    (nodes : List Node) (curr : ℕ) (slot : Option (Side × ℕ)) (k : ℕ) (rest : List ℕ)
    → IsReady 0 nodes curr slot k rest
    → ⊥
no_fuel nodes curr slot k rest r = elim (Bool-cases (curr == 0)) [
  | inl t ↦ let z : curr ≡ 0 = ground arith in omega (arith, r.bound_new z)
  | inr f ↦ let nz : curr ≢ 0 = λ z. absurd (ground arith) in omega (arith, r.bound_old nz)
]

-- This much fuel inserts every sequence that is ready for it.
abbrev Inserts : ℕ → Type 0
Inserts fuel =
    (t : Table) (k : ℕ) (rest : List ℕ) (curr : ℕ) (slot : Option (Side × ℕ)) (p : Production)
    → IsReady fuel t.nodes curr slot k rest
    → IsInserted p (grow t.nodes curr slot k).0 (grow t.nodes curr slot k).1 (k ∷ rest)
        (insert_loop fuel t (k ∷ rest) curr slot p).nodes

-- The round that finds its keysym.
equal-IsInserted :
    (fuel : ℕ)
    → Inserts fuel
    → (t : Table) (k : ℕ) (rest : List ℕ) (c : ℕ) (p : Production) (node : Node)
    → IsAscending t.nodes
    → c < length t.nodes
    → length t.nodes - c + length rest ≤ suc fuel
    → get_elem? t.nodes c ≡ some node
    → node.keysym ≡ k
    → IsInserted p t.nodes c
        (k ∷ rest)
        (if is_empty rest
          then finish t c node p
          else insert_loop fuel
              (record t { nodes = set t.nodes c (open_node node) })
              rest
              (open_node node).payload
              (some (eq, c))
              p).nodes
equal-IsInserted fuel all t k [] c p node a h b e same = finish-IsInserted t c k node p a h e same
equal-IsInserted fuel all t k (k' ∷ rest) c p node a h b e same =
    let nodes : List Node = set t.nodes c (open_node node) in
    let size : length nodes ≡ length t.nodes = length-set t.nodes c (open_node node) in
    let ascending =
      set-IsAscending t.nodes c (open_node node) a
        (open_node-HasChildren (length t.nodes) c node (a c node e)) in
    let here = get_elem?-set_self t.nodes c (open_node node) h in
    let keep : with_side eq (open_node node) (child eq (open_node node)) ≡ open_node node =
      rw (open_node-child node) refl in
    let s =
      step nodes c (open_node node) eq k' ascending here fuel rest keep (omega (arith, size)) in
    rw (← open_node-child node) (
      next-IsInserted p t.nodes c k k' rest node _ same s.0
        (all (record t { nodes = nodes }) k' rest (child eq (open_node node)) (some (eq, c)) p s.1))

pub insert_loop-IsInserted : (fuel : ℕ) → Inserts fuel
insert_loop-IsInserted zero t k rest curr slot p r = absurd (no_fuel t.nodes curr slot k rest r)
insert_loop-IsInserted (suc fuel) t k rest curr slot p r =
    let g : List Node × ℕ = grow t.nodes curr slot k in
    let t1 : Table = record t { nodes = g.0 } in
    let found = get_elem?-some_of_lt g.0 g.1 r.inside in
    let node : Node = found.0 in
    let round = insert_loop-suc fuel t k rest curr slot p node found.1 in
    elim (Bool-cases (ltb k node.keysym)) [
      | inl lt ↦
          let differ : node.keysym ≢ k = λ q. absurd (ground arith) in
          let nz = old_of_different (suc fuel) t.nodes curr slot k rest node r found.1 differ in
          let s = step g.0 g.1 node lo k r.ascending found.1 fuel rest refl (r.bound_old nz) in
          rw (round, lt)
            (lower-IsInserted p g.0 g.1 k rest node _ (ltb→lt k node.keysym lt) s.0
              (insert_loop-IsInserted fuel t1 k rest node.lokid (some (lo, g.1)) p s.1))
      | inr ge ↦ elim (Bool-cases (ltb node.keysym k)) [
        | inl gt ↦
            let differ : node.keysym ≢ k = λ q. absurd (ground arith) in
            let nz = old_of_different (suc fuel) t.nodes curr slot k rest node r found.1 differ in
            let s = step g.0 g.1 node hi k r.ascending found.1 fuel rest refl (r.bound_old nz) in
            rw (round, ge, gt)
              (higher-IsInserted p g.0 g.1 k rest node _ (ltb→lt node.keysym k gt) s.0
                (insert_loop-IsInserted fuel t1 k rest node.hikid (some (hi, g.1)) p s.1))
        | inr le ↦
            let same : node.keysym ≡ k = ground arith in
            rw (round, ge, le)
              (equal-IsInserted fuel (insert_loop-IsInserted fuel) t1 k rest g.1 p node r.ascending
                r.inside (room fuel t.nodes curr slot k rest r) found.1 same)
      ]
    ]
