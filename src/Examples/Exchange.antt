-- ===== src/Examples/Exchange.antt =====
-- A replica that has the genesis delta and an update sends the update to one that has the genesis
-- delta.
use did_crdt.Base.{◌-◌, ◌≡◌, refl, true, false, ◌||◌, List, [], ◌∷◌, ◌⊎◌, ◌↔◌, ℕ, arith}
use did_crdt.Ord.{nat_ord}
use did_crdt.Ord.Text.{list_ord, cmp_list}
use did_crdt.Std.Map
use did_crdt.Std.Set
use did_crdt.Error.{err, delta_rejected, ok}
use did_crdt.Delta.{DeltaHash, SignedDelta, content_hash, signing_input}
use did_crdt.Dag.{new, insert, contains, get, len}
use did_crdt.Dag.Insert.{IsValid, new-IsValid, insert-IsValid}
use did_crdt.Recon.{ClosureBundle, extract_closure, deltas_for_peer, merge_bundle, hashes_of}
use did_crdt.Recon.Converge.{
  insert-Agrees, IsRooted, Agrees, insert-IsKeyed, insert-IsClosed, insert-IsRooted,
  deltas_for_peer_complete,
}
use did_crdt.Recon.Exchange.{merge_bundle-extract_closure}
use did_crdt.Recon.Extract.{IsKeyed, Wanted}
use did_crdt.Recon.Merge.{IsClosed}
use did_crdt.Document.{Document}
use did_crdt.Document.Export.{export_bundle, closure_bundle}
use did_crdt.Document.Export.Whole.{export_bundle_lem}
use did_crdt.Examples.Documents.{crates, empty}
use did_crdt.Examples.Parts.{digest, genesis, left, base, with_left}

base-IsValid : IsValid base
base-IsValid = insert-IsValid digest genesis new new-IsValid

with_left-IsValid : IsValid with_left
with_left-IsValid = insert-IsValid digest left base base-IsValid

base-IsClosed : IsClosed base
unfolding new contains get Map.get Set.contains
base-IsClosed = insert-IsClosed digest genesis new (λ h d p e m. cc) (λ p m. cc)

genesis_held : (p : DeltaHash) → Set.contains left.parents p ≡ true → contains base p ≡ true
unfolding insert new contains get Map.get Map.insert Set.contains content_hash signing_input
genesis_held p m = ground (arith, m)

with_left-IsClosed : IsClosed with_left
with_left-IsClosed = insert-IsClosed digest left base base-IsClosed genesis_held

base-IsKeyed : IsKeyed digest base
unfolding new get Map.get
base-IsKeyed = insert-IsKeyed digest genesis new (λ h d e. cc)

with_left-IsKeyed : IsKeyed digest with_left
with_left-IsKeyed = insert-IsKeyed digest left base base-IsKeyed

base-IsRooted : IsRooted base
unfolding new contains get Map.get Set.contains
base-IsRooted = insert-IsRooted digest genesis new new-IsValid refl refl (λ p m. cc) (λ h m. cc)

left_new : contains base (content_hash digest left) ≡ false
unfolding list_ord cmp_list nat_ord contains get Map.get Map.insert Set.contains Set.insert new
    insert content_hash signing_input
left_new = refl

left_childless : Set.contains base.referenced (content_hash digest left) ≡ false
unfolding list_ord cmp_list nat_ord contains get Map.get Map.insert Set.contains Set.insert new
    insert content_hash signing_input
left_childless = refl

with_left-IsRooted : IsRooted with_left
with_left-IsRooted =
    insert-IsRooted digest left base base-IsValid left_new left_childless genesis_held base-IsRooted

same_deltas : Agrees with_left base
same_deltas = insert-Agrees digest left base left_new

deltas_for_peer_complete_example :
    (ds : List (SignedDelta ℕ)) × (deltas_for_peer digest with_left base.frontier ≡ ok ds)
    × ((h : DeltaHash)
        → (contains base h || Set.contains (hashes_of digest ds) h)
          ≡ (contains base h || contains with_left h))
deltas_for_peer_complete_example =
    deltas_for_peer_complete digest with_left base with_left-IsValid with_left-IsClosed
      with_left-IsKeyed with_left-IsRooted base-IsValid base-IsClosed same_deltas

abbrev sent : ClosureBundle ℕ
sent = record { target = 2 ∷ []; deltas = left ∷ [] }

abbrev halt : List DeltaHash
halt = (1 ∷ []) ∷ []

left_sent : extract_closure with_left (2 ∷ []) halt ≡ ok sent
unfolding list_ord cmp_list nat_ord contains get Map.get Map.insert Set.contains Set.insert new
    insert content_hash signing_input extract_closure
left_sent = refl

target_new : Set.contains halt (2 ∷ []) ≡ false
unfolding list_ord cmp_list nat_ord Set.contains
target_new = refl

halt_held : (h : DeltaHash) → Set.contains halt h ≡ true → contains base h ≡ true
halt_held h m = genesis_held h m

merge_bundle-extract_closure_example :
    ((merge_bundle digest sent base).1 ≡ ok (len (merge_bundle digest sent base).0 - len base))
    × ((h : DeltaHash)
        → (contains (merge_bundle digest sent base).0 h ≡ true)
          ↔ ((contains base h ≡ true) ⊎ Wanted with_left (2 ∷ []) halt h))
merge_bundle-extract_closure_example =
    merge_bundle-extract_closure digest with_left with_left-IsKeyed (2 ∷ []) halt sent left_sent
      base base-IsValid base-IsClosed target_new halt_held

-- A document with that store.
abbrev holder : Document crates
holder = record empty { dag = with_left }

export_bundle_lem_example :
    (closure_bundle crates holder ≡ export_bundle crates holder)
    × (((holder.dag.frontier ≡ []) × (export_bundle crates holder ≡ err delta_rejected))
        ⊎ ((b : ClosureBundle ℕ) × (export_bundle crates holder ≡ ok b)
            × (Set.contains holder.dag.frontier b.target ≡ true)
            × ((h : DeltaHash)
                → Set.contains (hashes_of crates.digest b.deltas) h ≡ contains holder.dag h)))
export_bundle_lem_example =
    export_bundle_lem crates holder with_left-IsValid with_left-IsClosed with_left-IsKeyed
      with_left-IsRooted
