-- ===== src/Examples/Services.antt =====
-- Two replicas of a set of service endpoints, one of which removes what the other adds again.
use did_crdt.Base.{[], ◌∷◌, ◌≡◌, refl, some, none}
use did_crdt.Ord.{nat_ord}
use did_crdt.Std.Map
use did_crdt.Std.Set
use did_crdt.Std.Sort.{sort_by_key}
use did_crdt.Hlc.{timestamp_ord}
use did_crdt.Crdt.Services.{
  raise, seen, entries, ServiceEndpoints, ServiceEntry, new, apply_add, apply_remove, merge,
  IsValid, Agree,
}
use did_crdt.Crdt.Services.Join.{merge_comm, merge_assoc, merge_idem}
use did_crdt.Crdt.Services.Live.{new-IsValid, apply_add-IsValid, apply_remove-IsValid}
use did_crdt.Crdt.Services.Replay.{add_wins, removed_stays}
use did_crdt.Examples.Parts.{at, key}

abbrev entry : ServiceEntry
entry = record { id = key; service_type = []; endpoint = 1 ∷ [] }

abbrev changed : ServiceEntry
changed = record { id = key; service_type = []; endpoint = 2 ∷ [] }

-- One add, then the removal of it on another replica.
abbrev added : ServiceEndpoints
added = apply_add entry (at 1 7) new

abbrev removed : ServiceEndpoints
removed = apply_remove (at 1 7 ∷ []) (at 3 8) added

abbrev readded : ServiceEndpoints
readded = apply_add changed (at 2 7) added

added-IsValid : IsValid added
added-IsValid = apply_add-IsValid entry (at 1 7) new new-IsValid

removed-IsValid : IsValid removed
removed-IsValid = apply_remove-IsValid (at 1 7 ∷ []) (at 3 8) added added-IsValid

readded-IsValid : IsValid readded
readded-IsValid = apply_add-IsValid changed (at 2 7) added added-IsValid

Agree-sample : Agree removed readded
unfolding new apply_add apply_remove Map.get Map.remove Map.insert timestamp_ord
Agree-sample d = tt

merge_comm_example : merge removed readded ≡ merge readded removed
merge_comm_example = merge_comm removed readded removed-IsValid readded-IsValid Agree-sample

merge_assoc_example : merge (merge added removed) readded ≡ merge added (merge removed readded)
merge_assoc_example =
    merge_assoc added removed readded added-IsValid removed-IsValid readded-IsValid

merge_idem_example : merge readded readded ≡ readded
merge_idem_example = merge_idem readded readded-IsValid

add_wins_example :
    (Map.get
        (merge (apply_add changed (at 2 7) added) (apply_remove (at 1 7 ∷ []) (at 3 8) added)).live
        (at 2 7)
      ≡ some changed)
    × (Map.get
          (merge
            (apply_remove (at 1 7 ∷ []) (at 3 8) added)
            (apply_add changed (at 2 7) added)).live
          (at 2 7)
        ≡ some changed)
unfolding new apply_add apply_remove seen Map.get raise Map.insert nat_ord timestamp_ord
add_wins_example =
    add_wins changed (at 2 7) (at 1 7 ∷ []) (at 3 8) added added added-IsValid added-IsValid refl

removed_stays_example :
    (Map.get (merge removed readded).live (at 1 7) ≡ none)
    × (Map.get (merge readded removed).live (at 1 7) ≡ none)
unfolding new apply_add apply_remove seen Map.get raise Map.insert nat_ord timestamp_ord Map.remove
removed_stays_example =
    removed_stays (at 1 7) removed readded removed-IsValid readded-IsValid refl refl

-- The entry that was added again is the only one after the merge.
merge_test : entries (merge removed readded) ≡ changed ∷ []
unfolding new apply_add apply_remove merge entries sort_by_key Map.insert timestamp_ord Map.get
    Map.remove Set.contains
merge_test = refl
