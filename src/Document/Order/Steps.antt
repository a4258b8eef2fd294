-- ===== src/Document/Order/Steps.antt =====
-- src/core/document.rs, `topo_order_bundle`: the steps of its loops where no look-up fails.
use did_crdt.Base.{ℕ, ◌+◌, ◌-◌, List, [], ◌∷◌, ◌++◌, none, some, ◌==◌, if◌then◌else◌}
use did_crdt.Ord.{nat_ord}
use did_crdt.Ord.Text.{list_ord}
use did_crdt.Std.Map
use did_crdt.Std.Map.{Map, contains_key}
use did_crdt.Delta.{DeltaHash, SignedDelta}
use did_crdt.Document.Order.{listed, Edges}

-- The number under a hash, 0 if there is none.
abbrev pub number : Map DeltaHash ℕ → DeltaHash → ℕ
number indeg h = elim (Map.get indeg h) [ none ↦ 0 | some n ↦ n ]

module _ {V : Type 0} where
  -- The loop over the parents of the delta `h`.
  unfoldable pub attach : Map DeltaHash (SignedDelta V) → DeltaHash → List DeltaHash → Edges → Edges
  attach by_hash h [] e = e
  attach by_hash h (p ∷ ps) e = attach by_hash h ps (
      if contains_key by_hash p
      then record {
        indeg = Map.insert h (number e.indeg h + 1) e.indeg;
        children = Map.insert p (listed e.children p ++ h ∷ []) e.children;
      }
      else e)

  -- The loop over the deltas.
  unfoldable pub attach_all :
      Map DeltaHash (SignedDelta V) → Map DeltaHash (SignedDelta V) → Edges → Edges
  unfolding attach
  attach_all by_hash [] e = e
  attach_all by_hash ((h, d) ∷ m) e = attach_all by_hash m (attach by_hash h d.parents e)

-- The loop over the children of a hash that is done: their in-degrees, and those that come to 0.
unfoldable pub lower :
    List DeltaHash → Map DeltaHash ℕ → List DeltaHash → Map DeltaHash ℕ × List DeltaHash
lower [] indeg unlocked = (indeg, unlocked)
lower (c ∷ cs) indeg unlocked =
    let n = number indeg c - 1 in
    lower cs (Map.insert c n indeg) (if n == 0 then unlocked ++ c ∷ [] else unlocked)
