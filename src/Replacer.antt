-- ===== src/Replacer.antt =====
-- src/replacer.rs: the LRU-K replacer. A `HashMap` is a list of its entries; every iteration order
-- is such a list, so a statement about all lists holds for every order. `LRU` is this state behind
-- a mutex, and its methods are these functions. Arithmetic on `u64` wraps, as in a release build.
pub mod Nodes
pub mod Candidacy
pub mod Eviction
pub mod Invariant
use dbstorage.Base.{
  ℕ, zero, suc, ◌+◌, ◌-◌, ◌^◌, Bool, Option, some, none, List, [], ◌∷◌, ◌++◌, ltb, leb, ◌==◌,
  if◌then◌else◌, last, ◌%◌,
}
use dbstorage.Base.Panic.{◌>>=◌}
use dbstorage.HashMap.{Entries, lookup, insert, update, remove, nat_key}
use Nodes.{FrameId, LrukNode, new_node, get_k_distance}

pub record LrukReplacer : Type 0 where
  pub nodes : Entries FrameId LrukNode
  pub current_ts : ℕ
  pub k : ℕ

-- `LRUKReplacer::new(k)`
unfoldable pub new : ℕ → LrukReplacer
new k = record { nodes = []; current_ts = 0; k = k }

abbrev pub max_u64 : ℕ
max_u64 = 2 ^ 64 - 1

-- The accumulators of the loop of `evict`: the frame with the greatest distance so far and that
-- distance, and the nodes with fewer than `k` accesses.
pub record Candidates : Type 0 where
  pub frame : FrameId
  pub distance : ℕ
  pub single_access : List LrukNode

unfoldable pub consider : Candidates → FrameId → LrukNode → Option ℕ → Candidates
consider c id node (some d) = if ltb c.distance d then record c { frame = id; distance = d } else c
consider c id node none = record c { single_access = c.single_access ++ (node ∷ []) }

-- One round of the loop.
unfoldable pub examine : ℕ → Candidates → FrameId → LrukNode → Option Candidates
unfolding get_k_distance consider
examine k c id node =
    if node.pin == 0 then (do d ← get_k_distance node k; some (consider c id node d)) else some c

unfoldable pub examine_all : ℕ → Candidates → Entries FrameId LrukNode → Option Candidates
unfolding examine
examine_all k c [] = some c
examine_all k c ((id, node) ∷ rest) = do c' ← examine k c id node; examine_all k c' rest

-- The loop over the nodes with fewer than `k` accesses: the frame and its timestamp.
unfoldable pub earliest : FrameId → ℕ → List LrukNode → Option FrameId
unfolding last
earliest i ts [] = some i
earliest i ts (node ∷ rest) = do
  t ← last node.history
  earliest (if ltb t ts then node.i else i) (if ltb t ts then t else ts) rest

-- What `evict` does with the candidates once the loop is over.
unfoldable pub choose : Candidates → Option (Option FrameId)
unfolding earliest
choose c =
    if c.distance == 0
    then elim c.single_access [
      | [] ↦ some none
      | node ∷ rest ↦ (do i ← earliest 0 max_u64 (node ∷ rest); some (some i))
    ]
    else some (some c.frame)

-- `evict(&mut self)` changes nothing; the outer `none` is a panic.
unfoldable pub evict : LrukReplacer → Option (Option FrameId)
unfolding examine_all choose
evict r = do
  c ← examine_all r.k (record { frame = 0; distance = 0; single_access = [] }) r.nodes
  choose c

-- The access type is not used.
unfoldable pub record_access : LrukReplacer → FrameId → LrukReplacer
unfolding new_node
record_access r i = elim (lookup i r.nodes) [
  | some _ ↦ record r {
    nodes =
        update i (λ node. record node { history = node.history ++ (r.current_ts ∷ []) }) r.nodes;
    current_ts = (r.current_ts + 1) % 2 ^ 64;
  }
  | none ↦ record r {
    nodes = insert i (new_node i r.current_ts) r.nodes;
    current_ts = (r.current_ts + 1) % 2 ^ 64;
  }
]

unfoldable pub pin : LrukReplacer → FrameId → LrukReplacer
pin r i = record r {
  nodes = update i (λ node. record node { pin = (node.pin + 1) % 2 ^ 64 }) r.nodes;
}

unfoldable pub unpin : LrukReplacer → FrameId → LrukReplacer
unpin r i = record r {
  nodes = update i (λ node. record node { pin = (node.pin + 2 ^ 64 - 1) % 2 ^ 64 }) r.nodes;
}

-- A frame that is still pinned is removed too; the source prints a warning.
unfoldable pub remove_node : LrukReplacer → FrameId → LrukReplacer
remove_node r i = record r { nodes = remove i r.nodes }
