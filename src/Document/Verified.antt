-- ===== src/Document/Verified.antt =====
-- src/core/document.rs: the merges of deltas from peers that are not trusted, which check signatures:
-- `merge_verified_delta` and `merge_verified_bundle`.
pub mod Bundle
pub mod Replay
pub mod Signed
pub mod Single
pub mod History
use did_crdt.Base.{
  ltb, any, if◌then◌else◌, ℕ, ◌-◌, Bool, true, false, not, ◌&&◌, List, [], ◌∷◌, Option, none, some,
}
use did_crdt.Ord.{nat_ord}
use did_crdt.Ord.Text.{list_ord}
use did_crdt.Std.Map
use did_crdt.Std.Map.{Map, contains_key}
use did_crdt.Error.{Error, delta_pending, delta_rejected, Result, ok, err, ◌>>=◌, refuse_if}
use did_crdt.Delta.{DeltaHash, SignedDelta, content_hash}
use did_crdt.Dag
use did_crdt.Admission.{AdmissionResult, unknown}
use did_crdt.Causal.{verify_causal}
use did_crdt.Recon.{ClosureBundle}
use did_crdt.Validate.Signature.{Crypto, verify_signature}
use did_crdt.Document.{Crates, Document, merge, delta_count}
use did_crdt.Document.Order.{topo_order_bundle}

module _ {V : Type 0} (k : Crypto V) (c : Crates V) where
  -- The causal parents that `verify_causal` misses.
  unfoldable pub pending_on : SignedDelta V → Document c → Option (List DeltaHash)
  pending_on d doc = elim (verify_causal d doc.dag) [ unknown missing ↦ some missing | _ ↦ none ]

  -- `Document::merge_verified_delta`.
  unfoldable pub merge_verified_delta : SignedDelta V → Document c → Document c × Result (Unit {0})
  unfolding pending_on
  merge_verified_delta d doc =
      if Dag.contains doc.dag (content_hash c.digest d)
      then (doc, ok tt)
      else elim (pending_on d doc) [
        | some missing ↦ (doc, err (delta_pending missing))
        | none ↦ elim (verify_signature k c d doc) [ err e ↦ (doc, err e) | ok tt ↦ merge c d doc ]
      ]

  -- The deltas of the bundle by their hashes.
  unfoldable pub index_bundle :
      List (SignedDelta V) → Map DeltaHash (SignedDelta V) → Map DeltaHash (SignedDelta V)
  index_bundle [] by_hash = by_hash
  index_bundle (d ∷ ds) by_hash = index_bundle ds (Map.insert (content_hash c.digest d) d by_hash)

  -- Whether some delta has a parent that is neither in the bundle nor held.
  unfoldable pub dangles : List (SignedDelta V) → Map DeltaHash (SignedDelta V) → Document c → Bool
  dangles ds by_hash doc =
      any (λ d. any (λ p. not (contains_key by_hash p) && not (Dag.contains doc.dag p)) d.parents)
        ds

  -- The loop over the order; `none` is a panic of the index `by_hash[h]`.
  unfoldable pub replay_bundle :
      Map DeltaHash (SignedDelta V) → List DeltaHash → Document c → Option (Result (Document c))
  replay_bundle by_hash [] working = some (ok working)
  replay_bundle by_hash (h ∷ hs) working =
      let rest = replay_bundle by_hash hs in
      if Dag.contains working.dag h then rest working else elim (Map.get by_hash h) [
        | none ↦ none
        | some d ↦ elim (verify_signature k c d working) [
          | err e ↦ some (err e)
          | ok tt ↦
              let (working', result) = merge c d working in
              elim result [ err e ↦ some (err e) | ok tt ↦ rest working' ]
        ]
      ]

  -- The checks of the bundle and the order of its deltas; `none` is a panic.
  unfoldable pub arrange_bundle :
      ClosureBundle V
      → Map DeltaHash (SignedDelta V)
      → Document c
      → Option (Result (List DeltaHash))
  unfolding dangles
  arrange_bundle bundle by_hash doc =
      if not (contains_key by_hash bundle.target)
      then some (err delta_rejected)
      else if dangles bundle.deltas by_hash doc
      then some (err delta_rejected)
      else topo_order_bundle by_hash

  -- `Document::merge_verified_bundle`; `none` is a panic, of the order, of the replay, or of the
  -- last subtraction, which a release build would wrap.
  unfoldable pub merge_verified_bundle :
      ClosureBundle V → Document c → Option (Document c × Result ℕ)
  unfolding index_bundle arrange_bundle replay_bundle
  merge_verified_bundle bundle doc =
      let by_hash = index_bundle bundle.deltas [] in
      elim (arrange_bundle bundle by_hash doc) [
        | none ↦ none
        | some (err e) ↦ some (doc, err e)
        | some (ok order) ↦ elim (replay_bundle by_hash order doc) [
          | none ↦ none
          | some (err e) ↦ some (doc, err e)
          | some (ok working) ↦
              if ltb (delta_count c working) (delta_count c doc)
              then none
              else some (working, ok (delta_count c working - delta_count c doc))
        ]
      ]
