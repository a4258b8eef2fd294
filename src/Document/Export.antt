-- ===== src/Document/Export.antt =====
-- src/core/document.rs: what a document gives away of its history, `export_bundle` and
-- `closure_bundle`.
pub mod Whole
use did_crdt.Base.{◌∷◌, List, [], reverse, none, some, if◌then◌else◌, Option, ◌++◌}
use did_crdt.Ord.{nat_ord, lt?}
use did_crdt.Ord.Text.{list_ord, Text}
use did_crdt.Std.Sort.{sort}
use did_crdt.Error.{Result, ok, err, delta_rejected, ◌>>=◌}
use did_crdt.Delta.{DeltaHash, SignedDelta, Payload}
use did_crdt.Dag.{DeltaDag}
use did_crdt.Recon.{ClosureBundle, extract_closure, push_new}
use did_crdt.Document.{Crates, Document}

-- `Iterator::max` and `slice::last`.
unfoldable pub greatest : List DeltaHash → Option DeltaHash
greatest [] = none
greatest (h ∷ hs) = elim (greatest hs) [ none ↦ some h | some m ↦ some (if lt? m h then h else m) ]

unfoldable pub last : List DeltaHash → Option DeltaHash
last [] = none
last (h ∷ []) = some h
last (h ∷ k ∷ hs) = last (k ∷ hs)

module _ {V : Type 0} (digest : Payload V → DeltaHash) where
  -- The loop over the heads, which both share; `out` has the last one first.
  unfoldable pub push_closures :
      DeltaDag V
      → List DeltaHash
      → List DeltaHash
      → List (SignedDelta V)
      → Result (List (SignedDelta V))
  push_closures g [] seen out = ok (reverse out)
  push_closures g (head ∷ heads) seen out = elim (extract_closure g head []) [
    | err e ↦ err e
    | ok bundle ↦
        let (seen', out') = push_new digest bundle.deltas seen out in
        push_closures g heads seen' out'
  ]

  -- The bundle for a target, if there is one.
  abbrev pub bundle_for : DeltaDag V → Option DeltaHash → List DeltaHash → Result (ClosureBundle V)
  bundle_for g none heads = err delta_rejected
  bundle_for g (some target) heads =
      push_closures g heads [] [] >>= λ deltas. ok (record { target = target; deltas = deltas })

module _ {V : Type 0} (c : Crates V) where
  -- `Document::export_bundle`.
  unfoldable pub export_bundle : Document c → Result (ClosureBundle V)
  unfolding push_closures greatest
  export_bundle doc = bundle_for c.digest doc.dag (greatest doc.dag.frontier) doc.dag.frontier

  -- `Document::closure_bundle`.
  unfoldable pub closure_bundle : Document c → Result (ClosureBundle V)
  unfolding push_closures last
  closure_bundle doc =
      let heads = sort doc.dag.frontier in bundle_for c.digest doc.dag (last heads) heads
