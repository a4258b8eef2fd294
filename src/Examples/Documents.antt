-- ===== src/Examples/Documents.antt =====
-- A document that takes in its genesis, an update and a revocation.
use did_crdt.Base.{ℕ, [], ◌∷◌, ◌≡◌, ◌≢◌, refl, none, true, false, ◌⊎◌, ◌||◌}
use did_crdt.Ord.{nat_ord}
use did_crdt.Ord.Text.{cmp_list, list_ord}
use did_crdt.Std.Map
use did_crdt.Std.Set
use did_crdt.Std.Set.{IsAscending}
use did_crdt.Std.Sort.{sort_dedup}
use did_crdt.Hlc.{timestamp_ord}
use did_crdt.Error.{delta_pending, ok, err, delta_rejected}
use did_crdt.Delta.{DeltaHash, content_hash}
use did_crdt.Crdt.Registers.{marker_ord, new_key, new_aliases, alias_entries, zeros}
use did_crdt.Crdt.Services
use did_crdt.Crdt.Services.Live.{new-IsValid}
use did_crdt.Crdt.Sets.{is_set, method_entries, is_revoked, method_ord}
use did_crdt.Dag
use did_crdt.Dag.{has_authorising_delta}
use did_crdt.Dag.Insert
use did_crdt.Admission.{valid, invalid, signer_not_authorised, unknown}
use did_crdt.Causal.{verify_causal}
use did_crdt.Causal.Decision.{Claims}
use did_crdt.Resolve.{reserved_document_properties, is_reserved_document_property}
use did_crdt.Document.{Document, Crates, merge, commit, merge_state, logged}
use did_crdt.Document.Admit.{merge_pending, merge_admits, merge_authorised, merge_again}
use did_crdt.Document.State.{IsValid-merge_state, merge_state_lem}
use did_crdt.Document.Valid.{IsValid, IsValid-merge}
use did_crdt.Examples.Parts.{digest, key, genesis, left, right, register, sets}

abbrev pub crates : Crates ℕ
crates = record {
  methods = sets;
  ids = sets;
  values = register;
  aliases = register;
  keys = register;
  null = 0;
  hash = λ t. zeros;
  digest = digest;
  serialised_size = λ d. 100;
}

abbrev pub empty : Document crates
empty = record {
  did = 100 ∷ [];
  verification_methods = crates.methods.new;
  service_endpoints = Services.new;
  document_data = [];
  also_known_as = new_aliases;
  active_key = new_key;
  revocations = crates.ids.new;
  revoked_verification_methods = crates.ids.new;
  deactivated = record { flag = false };
  created_ms = none;
  updated_ms = none;
  delta_log = [];
  dag = Dag.new;
}

abbrev created : Document crates
created = (merge crates genesis empty).0

abbrev updated : Document crates
updated = (merge crates left created).0

abbrev revoked_there : Document crates
revoked_there = (merge crates right created).0

empty-IsValid : IsValid crates empty
unfolding new_aliases alias_entries logged Set.contains Dag.contains Map.get Dag.new
empty-IsValid = record {
  dag_valid = Insert.new-IsValid;
  services_valid = new-IsValid;
  data_ordered = tt;
  aliases_ascending = tt;
  log_held = λ h. refl;
}

created-IsValid : IsValid crates created
created-IsValid = IsValid-merge crates genesis empty empty-IsValid

IsValid-merge_example : IsValid crates updated
IsValid-merge_example = IsValid-merge crates left created created-IsValid

revoked_there-IsValid : IsValid crates revoked_there
revoked_there-IsValid = IsValid-merge crates right created created-IsValid

updated-IsValid : IsValid crates updated
updated-IsValid = IsValid-merge crates left created created-IsValid

IsValid-merge_state_example : IsValid crates (merge_state crates updated revoked_there).0
IsValid-merge_state_example =
    IsValid-merge_state crates updated revoked_there updated-IsValid revoked_there-IsValid

merge_state_lem_example :
    ((updated.did ≢ revoked_there.did)
      × (merge_state crates updated revoked_there ≡ (revoked_there, err delta_rejected)))
    ⊎ ((updated.did ≡ revoked_there.did)
        × ((merge_state crates updated revoked_there).1 ≡ ok tt)
        × ((h : DeltaHash)
            → Dag.contains (merge_state crates updated revoked_there).0.dag h
              ≡ (Dag.contains revoked_there.dag h || Dag.contains updated.dag h)))
merge_state_lem_example =
    merge_state_lem crates updated revoked_there updated-IsValid revoked_there-IsValid

left_waits : (merge crates left empty).1 ≡ err (delta_pending ((1 ∷ []) ∷ []))
unfolding merge list_ord cmp_list nat_ord is_reserved_document_property Set.contains
    reserved_document_properties Dag.contains Map.get Dag.new verify_causal sort_dedup
left_waits = refl

merge_pending_example :
    ((merge crates left empty).0 ≡ empty)
    × (Dag.contains empty.dag (content_hash crates.digest left) ≡ false)
    × Claims empty.dag left.parents left.proof.verification_method (unknown ((1 ∷ []) ∷ []))
merge_pending_example = merge_pending crates left empty ((1 ∷ []) ∷ []) left_waits

left_merged : (merge crates left created).1 ≡ ok tt
unfolding merge list_ord cmp_list nat_ord Dag.contains Map.get Dag.new verify_causal is_set
    has_authorising_delta method_entries sets is_revoked Set.contains is_reserved_document_property
    reserved_document_properties Dag.insert Map.insert Set.insert method_ord sort_dedup
left_merged = refl

left_new : Dag.contains created.dag (content_hash crates.digest left) ≡ false
unfolding merge list_ord cmp_list nat_ord Dag.contains Map.get Dag.new verify_causal is_set
    has_authorising_delta method_entries sets is_revoked Set.contains Dag.insert Map.insert
    Set.insert method_ord
left_new = refl

key_known : has_authorising_delta created.dag key ≡ true
unfolding merge list_ord cmp_list nat_ord Dag.contains Map.get Dag.new verify_causal is_set
    has_authorising_delta method_entries sets is_revoked Set.contains Dag.insert Map.insert
    Set.insert method_ord
key_known = refl

merge_admits_example :
    ((merge crates left created).0 ≡ commit crates left created)
    × (left.did ≡ created.did)
    × IsAscending left.parents
    × ((verify_causal left created.dag ≡ valid)
        ⊎ ((verify_causal left created.dag ≡ invalid signer_not_authorised)
            × (left.parents ≢ [])
            × (has_authorising_delta created.dag left.proof.verification_method ≡ false)))
merge_admits_example = merge_admits crates left created left_merged left_new

merge_authorised_example : Claims created.dag left.parents key valid
merge_authorised_example =
    merge_authorised crates left created left_merged left_new (λ h. cc) key_known

merge_again_example :
    merge crates left (merge crates left created).0 ≡ ((merge crates left created).0, ok tt)
merge_again_example = merge_again crates left created left_merged
