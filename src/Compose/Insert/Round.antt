-- ===== src/Compose/Insert/Round.antt =====
-- What one round of the loop of `add_production` does to the trie.
use libxkbcommon.Base.{
  ℕ, ◌<◌, ◌≡◌, inl, inr, refl, ◌∙◌, arith, true, false, ◌&&◌, Bool-cases, Option, none, some, List,
  [], ◌∷◌, length, get_elem?, set, get_elem?-set_self, get_elem?-set_ne,
}
use libxkbcommon.Compose.{
  Node, lo, hi, eq, with_side, grow, open_node, Table, Production, store_string, same_string,
  same_keysym, keysym_of, result_node, finish,
}
use libxkbcommon.Compose.Trie.{
  child, HasChildren, IsAscending, PathTo, lower, higher, down, result, set-IsAscending,
}
use libxkbcommon.Compose.Insert.Grow.{IsStep}

-- A leaf with the result keysym of a production.
pub record IsResult (p : Production) (node : Node) : Type 0 where
  pub leaf : node.is_leaf ≡ true
  pub keysym : node.payload ≡ keysym_of p.keysym

-- What insertion from the node at `c` leaves: a path to the result from there, the nodes before it
-- as they were, and children behind their parents.
pub record IsInserted (p : Production) (grown : List Node) (c : ℕ) (lhs : List ℕ)
    (nodes : List Node) : Type 0 where
  pub path : PathTo nodes (IsResult p) c lhs
  pub before : (i : ℕ) → i < c → get_elem? nodes i ≡ get_elem? grown i
  pub ascending : IsAscending nodes

module _ (p : Production) (grown : List Node) (c k : ℕ) (rest : List ℕ) (node : Node) where
  pub lower-IsInserted :
      (nodes : List Node)
      → k < node.keysym
      → IsStep grown c node lo k
      → IsInserted p
          (grow grown node.lokid (some (lo, c)) k).0
          (grow grown node.lokid (some (lo, c)) k).1
          (k ∷ rest)
          nodes
      → IsInserted p grown c (k ∷ rest) nodes
  lower-IsInserted nodes lt s ih = record {
    path =
        lower c k rest (with_side lo node (grow grown node.lokid (some (lo, c)) k).1)
          (ih.before c s.behind ∙ s.here) lt s.behind ih.path;
    before = λ i h. ih.before i (omega (arith, s.behind)) ∙ s.before i h;
    ascending = ih.ascending;
  }

  pub higher-IsInserted :
      (nodes : List Node)
      → node.keysym < k
      → IsStep grown c node hi k
      → IsInserted p
          (grow grown node.hikid (some (hi, c)) k).0
          (grow grown node.hikid (some (hi, c)) k).1
          (k ∷ rest)
          nodes
      → IsInserted p grown c (k ∷ rest) nodes
  higher-IsInserted nodes lt s ih = record {
    path =
        higher c k rest (with_side hi node (grow grown node.hikid (some (hi, c)) k).1)
          (ih.before c s.behind ∙ s.here) lt s.behind ih.path;
    before = λ i h. ih.before i (omega (arith, s.behind)) ∙ s.before i h;
    ascending = ih.ascending;
  }

open_node-is_leaf : (node : Node) → (open_node node).is_leaf ≡ false
open_node-is_leaf node = ground arith

open_node-keysym : (node : Node) → (open_node node).keysym ≡ node.keysym
open_node-keysym node = ground arith

pub open_node-child : (node : Node) → child eq (open_node node) ≡ (open_node node).payload
open_node-child node = ground arith

pub open_node-HasChildren :
    (n c : ℕ) (node : Node) → HasChildren n c node → HasChildren n c (open_node node)
open_node-HasChildren n c node h lo =
    let same : (open_node node).lokid ≡ node.lokid = ground arith in rw same (h lo)
open_node-HasChildren n c node h hi =
    let same : (open_node node).hikid ≡ node.hikid = ground arith in rw same (h hi)
open_node-HasChildren n c node h eq =
    let same : child eq (open_node node) ≡ child eq node = ground arith in rw same (h eq)

module _ (p : Production) (grown : List Node) (c k k' : ℕ) (rest : List ℕ) (node : Node) where
  pub next-IsInserted :
      (nodes : List Node)
      → node.keysym ≡ k
      → IsStep (set grown c (open_node node)) c (open_node node) eq k'
      → IsInserted p
          (grow (set grown c (open_node node)) (child eq (open_node node)) (some (eq, c)) k').0
          (grow (set grown c (open_node node)) (child eq (open_node node)) (some (eq, c)) k').1
          (k' ∷ rest)
          nodes
      → IsInserted p grown c (k ∷ k' ∷ rest) nodes
  next-IsInserted nodes same s ih =
      let c' =
        (grow (set grown c (open_node node)) (child eq (open_node node)) (some (eq, c)) k').1 in
      record {
        path =
            down c k k' rest (with_side eq (open_node node) c') (ih.before c s.behind ∙ s.here)
              (open_node-keysym node ∙ same) (open_node-is_leaf node) s.behind ih.path;
        before = λ i h.
            ih.before i (omega (arith, s.behind))
            ∙ s.before i h
            ∙ get_elem?-set_ne grown c i (open_node node) (λ q. absurd (omega arith));
        ascending = ih.ascending;
      }

same_keysym_sound :
    (node : Node) (keysym : Option ℕ)
    → same_keysym node keysym ≡ true
    → node.payload ≡ keysym_of keysym
same_keysym_sound node none h = ground arith
same_keysym_sound node (some keysym) h = ground arith

result_node-HasChildren :
    (n c : ℕ) (node : Node) (offset : ℕ) (keysym : Option ℕ)
    → HasChildren n c node
    → HasChildren n c (result_node node offset keysym)
result_node-HasChildren n c node offset keysym h lo = h lo
result_node-HasChildren n c node offset keysym h hi = h hi
result_node-HasChildren n c node offset keysym h eq = inl refl

pub finish-IsInserted :
    (t : Table) (c k : ℕ) (node : Node) (p : Production)
    → IsAscending t.nodes
    → c < length t.nodes
    → get_elem? t.nodes c ≡ some node
    → node.keysym ≡ k
    → IsInserted p t.nodes c (k ∷ []) (finish t c node p).nodes
unfolding finish
finish-IsInserted t c k node p a h e same =
    let stored = store_string t node p.string in
    elim (Bool-cases (node.is_leaf && (same_string t node p.string && same_keysym node p.keysym))) [
      | inl skip ↦ rw skip (record {
        path = result c k node e same (record {
          leaf = ground arith;
          keysym = same_keysym_sound node p.keysym (ground arith);
        });
        before = λ i b. refl;
        ascending = a;
      })
      | inr write ↦ rw write (record {
        path =
            result c k (result_node node stored.1 p.keysym)
              (get_elem?-set_self t.nodes c (result_node node stored.1 p.keysym) h) same
              (record { leaf = refl; keysym = refl });
        before = λ i b.
            get_elem?-set_ne t.nodes c i (result_node node stored.1 p.keysym)
              (λ q. absurd (omega arith));
        ascending =
            set-IsAscending t.nodes c (result_node node stored.1 p.keysym) a
              (result_node-HasChildren (length t.nodes) c node stored.1 p.keysym (a c node e));
      })
    ]
