-- ===== src/Document/Order.antt =====
-- src/core/document.rs, `topo_order_bundle`: the deltas of a bundle in an order that puts parents
-- first. A hash without an entry in `children` has none. The `HashMap`s are walked in the order of
-- their keys; what the walk collects is sorted before it is used.
pub mod Degrees
pub mod Drain
pub mod Laws
pub mod Lowering
pub mod Steps
pub mod Total
use did_crdt.Base.{
  ℕ, zero, suc, ◌+◌, Bool, true, false, not, List, [], ◌∷◌, ◌++◌, reverse, Option, none, some,
  length, ◌==◌, if◌then◌else◌,
}
use did_crdt.Ord.{nat_ord}
use did_crdt.Ord.Text.{list_ord}
use did_crdt.Std.Map
use did_crdt.Std.Map.{Map, contains_key}
use did_crdt.Std.Sort.{sort}
use did_crdt.Error.{Error, delta_rejected, Result, ok, err}
use did_crdt.Delta.{DeltaHash, SignedDelta}

-- `*n - 1`; `none` is a panic, for a key that is absent or for 0.
unfoldable pub decrement : Option ℕ → Option ℕ
decrement none = none
decrement (some zero) = none
decrement (some (suc n)) = some n

abbrev pub listed : Map DeltaHash (List DeltaHash) → DeltaHash → List DeltaHash
listed children h = elim (Map.get children h) [ none ↦ [] | some cs ↦ cs ]

-- `indeg` and `children`.
pub record Edges : Type 0 where
  pub indeg : Map DeltaHash ℕ
  pub children : Map DeltaHash (List DeltaHash)

module _ {V : Type 0} where
  -- Every in-degree is 0.
  unfoldable pub zero_degrees : Map DeltaHash (SignedDelta V) → Map DeltaHash ℕ
  zero_degrees [] = []
  zero_degrees ((h, d) ∷ m) = (h, 0) ∷ zero_degrees m

  -- The loop over the parents of the delta `h`; `none` is a panic of `get_mut(h).unwrap()`.
  unfoldable pub link :
      Map DeltaHash (SignedDelta V) → DeltaHash → List DeltaHash → Edges → Option Edges
  link by_hash h [] e = some e
  link by_hash h (p ∷ ps) e =
      let rest = link by_hash h ps in
      if contains_key by_hash p
      then elim (Map.get e.indeg h) [
        | none ↦ none
        | some n ↦ rest (record {
          indeg = Map.insert h (n + 1) e.indeg;
          children = Map.insert p (listed e.children p ++ h ∷ []) e.children;
        })
      ]
      else rest e

  -- The loop over the deltas.
  unfoldable pub link_all :
      Map DeltaHash (SignedDelta V) → Map DeltaHash (SignedDelta V) → Edges → Option Edges
  unfolding link
  link_all by_hash [] e = some e
  link_all by_hash ((h, d) ∷ m) e =
      let rest = link_all by_hash m in
      elim (link by_hash h d.parents e) [ none ↦ none | some e' ↦ rest e' ]

-- The hashes of in-degree 0.
unfoldable pub roots : Map DeltaHash ℕ → List DeltaHash
roots [] = []
roots ((h, n) ∷ m) = let rest = roots m in if n == 0 then h ∷ rest else rest

-- The loop over the children of a hash that is done: their in-degrees, and those that come to 0;
-- `none` is a panic of `get_mut(c).unwrap()` or of `*n -= 1`, which a release build would wrap.
unfoldable pub release :
    List DeltaHash → Map DeltaHash ℕ → List DeltaHash → Option (Map DeltaHash ℕ × List DeltaHash)
unfolding decrement
release [] indeg unlocked = some (indeg, unlocked)
release (c ∷ cs) indeg unlocked =
    let rest = release cs in
    elim (decrement (Map.get indeg c)) [
      | none ↦ none
      | some n ↦ rest (Map.insert c n indeg) (if n == 0 then unlocked ++ c ∷ [] else unlocked)
    ]

-- `while let Some(h) = ready.pop()`; the head of `ready` is its last element, `none` a panic.
unfoldable pub drain :
    ℕ
    → Map DeltaHash ℕ
    → Map DeltaHash (List DeltaHash)
    → List DeltaHash
    → List DeltaHash
    → Option (List DeltaHash)
unfolding release
drain zero indeg children ready order = some order
drain (suc fuel) indeg children [] order = some order
drain (suc fuel) indeg children (h ∷ ready) order =
    let rest = drain fuel in
    elim (release (listed children h) indeg []) [
      | none ↦ none
      | some r ↦ rest r.0 children (reverse (sort r.1) ++ ready) (order ++ h ∷ [])
    ]

-- `topo_order_bundle`; `none` is a panic. Each round puts one more delta into the order, so one
-- round more than there are deltas is enough.
unfoldable pub topo_order_bundle :
    {V : Type 0} → Map DeltaHash (SignedDelta V) → Option (Result (List DeltaHash))
unfolding zero_degrees link_all roots drain
topo_order_bundle by_hash =
    elim (link_all by_hash by_hash (record { indeg = zero_degrees by_hash; children = [] })) [
      | none ↦ none
      | some e ↦
          elim (drain (suc (length by_hash)) e.indeg e.children (reverse (sort (roots e.indeg)))
            []) [
              | none ↦ none
              | some order ↦
                  some
                    (if not (length order == length by_hash) then err delta_rejected else ok order)
            ]
    ]
