-- ===== src/Examples/Store.antt =====
-- Stores of a few deltas, searched and exchanged.
use did_crdt.Base.{some, ◌&&◌, ◌||◌, ◌-◌, ◌⊎◌, ℕ, [], ◌∷◌, ◌≡◌, refl, Option, true, false}
use did_crdt.Ord.{nat_ord}
use did_crdt.Ord.Text.{cmp_list, list_ord}
use did_crdt.Std.Map
use did_crdt.Std.Set
use did_crdt.Std.Sort.{sort_dedup}
use did_crdt.Error.{ok, err, delta_rejected}
use did_crdt.Delta.{signing_input, DeltaHash, SignedDelta, content_hash}
use did_crdt.Dag.{len, new, incomplete, insert, closure_find, contains, get, revokes_key}
use did_crdt.Dag.Closure.{Answers}
use did_crdt.Dag.Find.{closure_find_lem}
use did_crdt.Dag.Insert.{IsValid, new-IsValid, insert-IsValid, insert_comm}
use did_crdt.Recon.{ClosureBundle, merge_bundle, hashes_of, grounded}
use did_crdt.Recon.Merge.{merge_bundle_lem, IsClosed}
use did_crdt.Examples.Parts.{digest, key, genesis, left, right, orphan, base, with_left}

base-IsValid : IsValid base
base-IsValid = insert-IsValid digest genesis new new-IsValid

insert-IsValid_example : IsValid with_left
insert-IsValid_example = insert-IsValid digest left base base-IsValid

insert_comm_example :
    insert digest right (insert digest left base) ≡ insert digest left (insert digest right base)
unfolding content_hash signing_input
insert_comm_example = insert_comm digest right left base base-IsValid (λ h. cc)

-- A search from the two parents of `orphan`.
closure_find_lem_example :
    Answers with_left
      (revokes_key key)
      orphan.parents
      (closure_find with_left orphan.parents (revokes_key key))
closure_find_lem_example = closure_find_lem with_left orphan.parents (revokes_key key)

closure_find_test :
    closure_find with_left orphan.parents (revokes_key key) ≡ incomplete ((9 ∷ []) ∷ [])
unfolding closure_find sort_dedup Set.contains get Map.get insert new Map.insert list_ord cmp_list
    nat_ord Set.insert revokes_key
closure_find_test = refl

-- Collects the parents of the first kind of delta.
abbrev wall_of : SignedDelta ℕ → Option ℕ
wall_of d = some d.timestamp.wall_ms

-- A bundle of two deltas, the child first.
abbrev bundle : ClosureBundle ℕ
bundle = record { target = 2 ∷ []; deltas = left ∷ genesis ∷ [] }

new-IsClosed : IsClosed {V = ℕ} new
unfolding get Map.get contains new
new-IsClosed h d p e m = cc

merge_bundle_lem_example :
    (((merge_bundle digest bundle new).0 ≡ new)
      × ((merge_bundle digest bundle new).1 ≡ err delta_rejected)
      × (Set.contains (hashes_of digest bundle.deltas) bundle.target
            && grounded digest new (hashes_of digest bundle.deltas) bundle.deltas
          ≡ false))
    ⊎ (((merge_bundle digest bundle new).1
          ≡ ok (len (merge_bundle digest bundle new).0 - len (new {V = ℕ})))
        × (contains (merge_bundle digest bundle new).0 bundle.target ≡ true)
        × ((h : DeltaHash)
            → contains (merge_bundle digest bundle new).0 h
              ≡ (contains (new {V = ℕ}) h || Set.contains (hashes_of digest bundle.deltas) h))
        × IsValid (merge_bundle digest bundle new).0
        × IsClosed (merge_bundle digest bundle new).0)
merge_bundle_lem_example = merge_bundle_lem digest bundle new new-IsValid new-IsClosed

merge_bundle_test : (merge_bundle digest bundle new).1 ≡ ok 2
unfolding merge_bundle Set.contains Set.insert list_ord cmp_list nat_ord Map.get new Map.insert
merge_bundle_test = refl

merge_bundle_refused_test :
    merge_bundle digest (record { target = 4 ∷ []; deltas = orphan ∷ [] }) with_left
    ≡ (with_left, err delta_rejected)
unfolding merge_bundle Set.contains Set.insert list_ord cmp_list nat_ord Map.get new Map.insert
merge_bundle_refused_test = refl
