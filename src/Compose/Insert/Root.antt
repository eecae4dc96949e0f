-- ===== src/Compose/Insert/Root.antt =====
-- `add_production` as a whole, from the root.
use libxkbcommon.Base.{
  ℕ, suc, ◌+◌, ◌<◌, ◌≡◌, inl, inr, refl, ◌∙◌, arith, false, Bool-cases, Option, none, some, List,
  [], ◌∷◌, ◌++◌, length, get_elem?, leb, ◌==◌, if◌then◌else◌,
}
use libxkbcommon.Compose.{
  Node, new_node, grow, Table, Production, dummy_node, insert_loop, add_production,
}
use libxkbcommon.Compose.Trie.{IsBehind-mono, child, IsAscending, PathTo}
use libxkbcommon.Compose.Insert.Grow.{IsReady}
use mathlib.Core.Path.{subst}
use libxkbcommon.Compose.Trie.{get_elem?-append_left, get_elem?-append_last}
use libxkbcommon.Base.{lt_of_get_elem?-some, length-append}
use libxkbcommon.Compose.Insert.Grow.{append-IsAscending}
use libxkbcommon.Compose.Insert.Round.{IsResult}
use libxkbcommon.Compose.Insert.Loop.{insert_loop-IsInserted}

-- The trie of a table that has been filled by `add_production`: the dummy leaf stands first, and
-- children stand behind their parents.
pub record IsTrie (nodes : List Node) : Type 0 where
  pub dummy : get_elem? nodes 0 ≡ some dummy_node
  pub ascending : IsAscending nodes

root-IsReady :
    (nodes : List Node) (k : ℕ) (rest : List ℕ)
    → IsTrie nodes
    → IsReady
        (length nodes + suc (length rest))
        nodes
        (if length nodes == 1 then 0 else 1)
        none
        k
        rest
unfolding grow
root-IsReady nodes k rest trie = elim (Bool-cases (length nodes == 1)) [
  | inl t ↦
      let one : length nodes ≡ 1 = ground arith in
      let size : length (nodes ++ (new_node k ∷ [])) ≡ suc (length nodes) =
        omega (arith, length-append nodes (new_node k ∷ [])) in
      rw t (record {
        ascending = append-IsAscending nodes k (λ i node e side.
            IsBehind-mono (length nodes) (suc (length nodes)) i (child side node) (omega arith)
              (trie.ascending i node e side));
        inside = omega (arith, size);
        positive = omega arith;
        new = λ h. (get_elem?-append_last nodes (new_node k), size);
        bound_new = λ h. omega arith;
        bound_old = λ h. absurd (h refl);
      })
  | inr f ↦
      let size : 1 < length nodes = ground (arith, lt_of_get_elem?-some nodes 0 trie.dummy) in
      rw f (record {
        ascending = trie.ascending;
        inside = size;
        positive = omega arith;
        new = λ h. absurd (omega arith);
        bound_new = λ h. absurd (omega arith);
        bound_old = λ h. omega arith;
      })
]

-- The first node of the sequence is at offset 1 and the dummy leaf stays.
root_at_one :
    (nodes : List Node) (k : ℕ)
    → IsTrie nodes
    → ((grow nodes (if length nodes == 1 then 0 else 1) none k).1 ≡ 1)
      × (get_elem? (grow nodes (if length nodes == 1 then 0 else 1) none k).0 0 ≡ some dummy_node)
unfolding grow
root_at_one nodes k trie = elim (Bool-cases (length nodes == 1)) [
  | inl t ↦
      let one : length nodes ≡ 1 = ground arith in
      rw t (one, get_elem?-append_left nodes (new_node k ∷ []) 0 (omega arith) ∙ trie.dummy)
  | inr f ↦ rw f (refl, trie.dummy)
]

-- In a trie that has the dummy leaf first and children behind their parents, and below the limit
-- on nodes, a sequence that is inserted leads from the root to a leaf with the result keysym of
-- its production, also where it overrides another sequence; and the trie keeps its form.
pub add_production-finds :
    (t : Table) (k : ℕ) (rest : List ℕ) (keysym : Option ℕ) (string : Option (List ℕ))
    → IsTrie t.nodes
    → length t.nodes + suc (length rest) < 8388608
    → PathTo
        (add_production t (record { lhs = k ∷ rest; keysym = keysym; string = string })).nodes
        (IsResult (record { lhs = k ∷ rest; keysym = keysym; string = string }))
        1
        (k ∷ rest)
      × IsTrie
          (add_production t (record { lhs = k ∷ rest; keysym = keysym; string = string })).nodes
unfolding add_production
add_production-finds t k rest keysym string trie limit =
    let p : Production = record { lhs = k ∷ rest; keysym = keysym; string = string } in
    let root = root_at_one t.nodes k trie in
    let below : leb 8388608 (length t.nodes + suc (length rest)) ≡ false = ground arith in
    let curr : ℕ = if length t.nodes == 1 then 0 else 1 in
    let after : Table = insert_loop (length t.nodes + suc (length rest)) t (k ∷ rest) curr none p in
    let all =
      insert_loop-IsInserted (length t.nodes + suc (length rest)) t k rest curr none p
        (root-IsReady t.nodes k rest trie) in
    rw below (
      subst (λ c. PathTo after.nodes (IsResult p) c (k ∷ rest)) root.0 all.path,
      record { dummy = all.before 0 (omega (arith, root.0)) ∙ root.1; ascending = all.ascending },
    )
