-- ===== src/Document/State.antt =====
-- src/core/document.rs: the merge of the states of two documents.
use did_crdt.Base.{
  if◌then◌else◌, ◌≡◌, subst, sym, ap, true, false, List, [], ◌∷◌, ◌++◌, ◌||◌, arith, ◌⊎◌, inl, inr,
  Bool-cases, ◌≢◌,
}
use did_crdt.Ord.{eq?, nat_ord}
use did_crdt.Ord.Text.{list_ord, text_ord}
use did_crdt.Std.Set
use did_crdt.Std.Set.{IsAscending}
use did_crdt.Std.Set.Laws.{contains-insert}
use did_crdt.Error.{ok, err, delta_rejected}
use did_crdt.Delta.{SignedDelta, DeltaHash, content_hash}
use did_crdt.Crdt.Registers.{alias_entries, merge_aliases, AlsoKnownAs}
use did_crdt.Crdt.Registers.Data.{merge_data-IsOrdered}
use did_crdt.Crdt.Registers.Order.{update-newer}
use did_crdt.Crdt.Services.Live.{merge-IsValid}
use did_crdt.Dag
use did_crdt.Dag.{DeltaDag}
use did_crdt.Dag.Insert
use did_crdt.Dag.Insert.{contains-insert_delta, insert-IsValid}
use did_crdt.Document.{Document, Crates, logged, take_log, merge_state}
use did_crdt.Document.Valid.{IsValid, contains-logged}

module _ {V : Type 0} (c : Crates V) where
  -- A log and a store that hold the same hashes.
  abbrev Match : List (SignedDelta V) × DeltaDag V → Type 0
  Match acc = (h : DeltaHash) → Dag.contains acc.1 h ≡ Set.contains (logged c acc.0) h

  abbrev extend :
      SignedDelta V → List (SignedDelta V) × DeltaDag V → List (SignedDelta V) × DeltaDag V
  extend d acc = (acc.0 ++ d ∷ [], Dag.insert c.digest d acc.1)

  Match-extend :
      (d : SignedDelta V) (acc : List (SignedDelta V) × DeltaDag V)
      → Match acc
      → Match (extend d acc)
  Match-extend d acc m h =
      ground (arith, contains-insert_delta c.digest d acc.1 h, contains-logged c acc.0 d h, m h)

  take_log-seen :
      (d : SignedDelta V) (ds : List (SignedDelta V)) (seen : List DeltaHash)
      (acc : List (SignedDelta V) × DeltaDag V)
      → Set.contains seen (content_hash c.digest d) ≡ true
      → take_log c (d ∷ ds) seen acc ≡ take_log c ds (Set.insert (content_hash c.digest d) seen) acc
  unfolding take_log
  take_log-seen d ds seen acc e =
      ap
        (λ b.
          take_log c ds (Set.insert (content_hash c.digest d) seen)
            (if b then acc else extend d acc))
        e

  take_log-new :
      (d : SignedDelta V) (ds : List (SignedDelta V)) (seen : List DeltaHash)
      (acc : List (SignedDelta V) × DeltaDag V)
      → Set.contains seen (content_hash c.digest d) ≡ false
      → take_log c (d ∷ ds) seen acc
        ≡ take_log c ds (Set.insert (content_hash c.digest d) seen) (extend d acc)
  unfolding take_log
  take_log-new d ds seen acc e =
      ap
        (λ b.
          take_log c ds (Set.insert (content_hash c.digest d) seen)
            (if b then acc else extend d acc))
        e

  Match-take_log :
      (ds : List (SignedDelta V)) (seen : List DeltaHash) (acc : List (SignedDelta V) × DeltaDag V)
      → Match acc
      → Match (take_log c ds seen acc)
  unfolding take_log
  Match-take_log [] seen acc m = m
  Match-take_log (d ∷ ds) seen acc m =
      elim (Bool-cases (Set.contains seen (content_hash c.digest d))) [
        | inl e ↦
            subst Match (sym (take_log-seen d ds seen acc e))
              (Match-take_log ds (Set.insert (content_hash c.digest d) seen) acc m)
        | inr e ↦ subst Match (sym (take_log-new d ds seen acc e)) (
            Match-take_log ds (Set.insert (content_hash c.digest d) seen) (extend d acc)
              (Match-extend d acc m))
      ]

  IsValid-take_log :
      (ds : List (SignedDelta V)) (seen : List DeltaHash) (acc : List (SignedDelta V) × DeltaDag V)
      → Insert.IsValid acc.1
      → Insert.IsValid (take_log c ds seen acc).1
  unfolding take_log
  IsValid-take_log [] seen acc v = v
  IsValid-take_log (d ∷ ds) seen acc v =
      elim (Bool-cases (Set.contains seen (content_hash c.digest d))) [
        | inl e ↦
            subst (λ r. Insert.IsValid r.1) (sym (take_log-seen d ds seen acc e))
              (IsValid-take_log ds (Set.insert (content_hash c.digest d) seen) acc v)
        | inr e ↦
            subst (λ r. Insert.IsValid r.1) (sym (take_log-new d ds seen acc e))
              (IsValid-take_log ds (Set.insert (content_hash c.digest d) seen) (extend d acc)
                (insert-IsValid c.digest d acc.1 v))
      ]

  -- The store takes in each delta of the other log, if what is seen is what it holds.
  contains-take_log :
      (ds : List (SignedDelta V)) (seen : List DeltaHash) (acc : List (SignedDelta V) × DeltaDag V)
      → ((h : DeltaHash) → Dag.contains acc.1 h ≡ Set.contains seen h)
      → (h : DeltaHash)
      → Dag.contains (take_log c ds seen acc).1 h
        ≡ (Dag.contains acc.1 h || Set.contains (logged c ds) h)
  unfolding logged Set.contains
  contains-take_log [] seen acc same h = unfold take_log in ground arith
  contains-take_log (d ∷ ds) seen acc same h =
      let k = content_hash c.digest d in
      elim (Bool-cases (Set.contains seen k)) [
        | inl e ↦
            (ground (
              arith,
              take_log-seen d ds seen acc e,
              e,
              same h,
              same k,
              contains-insert k h (logged c ds),
              text_ord.eq_of_cmp h k,
              contains-take_log ds (Set.insert k seen) acc
                  (λ x. ground (arith, same x, e, contains-insert k x seen, text_ord.eq_of_cmp x k))
                  h,
            ))
        | inr e ↦
            (ground (
              arith,
              take_log-new d ds seen acc e,
              contains-insert k h (logged c ds),
              contains-insert_delta c.digest d acc.1 h,
              contains-take_log ds (Set.insert k seen) (extend d acc)
                  (λ x. ground (
                    arith,
                    same x,
                    contains-insert k x seen,
                    contains-insert_delta c.digest d acc.1 x,
                  ))
                  h,
            ))
      ]

  merge_aliases-IsAscending :
      (a b : AlsoKnownAs)
      → IsAscending (alias_entries a)
      → IsAscending (alias_entries b)
      → IsAscending (alias_entries (merge_aliases c.aliases a b))
  unfolding merge_aliases alias_entries
  merge_aliases-IsAscending a b s t = rw (update-newer c.aliases a b) (ground (arith, s, t))

  -- The merge of the states of two valid documents is valid: store, services, document data and
  -- aliases are in form, and the store holds exactly the deltas of the log.
  pub IsValid-merge_state :
      (other doc : Document c)
      → IsValid c other
      → IsValid c doc
      → IsValid c (merge_state c other doc).0
  unfolding merge_state
  IsValid-merge_state other doc w v = elim (Bool-cases (eq? other.did doc.did)) [
    | inr e ↦ rw (e, merge_state) v
    | inl e ↦
        rw (e, merge_state)
          record {
            dag_valid =
                IsValid-take_log other.delta_log (logged c doc.delta_log) (doc.delta_log, doc.dag)
                  v.dag_valid;
            services_valid =
                merge-IsValid doc.service_endpoints other.service_endpoints v.services_valid
                  w.services_valid;
            data_ordered =
                merge_data-IsOrdered c.null c.values other.document_data doc.document_data
                  v.data_ordered;
            aliases_ascending =
                merge_aliases-IsAscending doc.also_known_as other.also_known_as v.aliases_ascending
                  w.aliases_ascending;
            log_held =
                Match-take_log other.delta_log (logged c doc.delta_log) (doc.delta_log, doc.dag)
                  v.log_held;
          }
  ]

  pub merge_state_lem :
      (other doc : Document c)
      → IsValid c other
      → IsValid c doc
      → ((other.did ≢ doc.did) × (merge_state c other doc ≡ (doc, err delta_rejected)))
        ⊎ ((other.did ≡ doc.did)
            × ((merge_state c other doc).1 ≡ ok tt)
            × ((h : DeltaHash)
                → Dag.contains (merge_state c other doc).0.dag h
                  ≡ (Dag.contains doc.dag h || Dag.contains other.dag h)))
  unfolding merge_state
  merge_state_lem other doc w v = elim (Bool-cases (eq? other.did doc.did)) [
    | inr e ↦ inl (λ same. ground (arith, e, same, text_ord.cmp_refl doc.did), rw (e, merge_state))
    | inl e ↦ inr (
      ground (arith, e, text_ord.eq_of_cmp other.did doc.did),
      rw (e, merge_state),
      λ h.
          rw (e, merge_state)
            (ground (
              arith,
              w.log_held h,
              contains-take_log other.delta_log (logged c doc.delta_log) (doc.delta_log, doc.dag)
                  v.log_held h,
            )),
    )
  ]
