-- ===== src/Gossip/Inbound/Bootstrap.antt =====
-- src/sync/gossip.rs, `merge_inbound` and `genesis_bootstrap`: what a message does to the documents
-- of a node.
use did_crdt.Base.{
  sym, ◌∙◌, Bool-cases, Option-cases, false, ◌≡◌, ap, refl, true, ◌⊎◌, inl, inr, List, Option, none,
  some, length, arith,
}
use did_crdt.Ord.{nat_ord, eq?}
use did_crdt.Ord.Text.{text_ord, Text, list_ord}
use did_crdt.Std.Map
use did_crdt.Std.Map.Laws.{get-insert}
use did_crdt.Delta.{Did, SignedDelta, content_hash}
use did_crdt.Validate.Signature.{Crypto}
use did_crdt.Document.{Crates, Document}
use did_crdt.Document.Genesis
use did_crdt.Document.Genesis.{derive_did, Genesis}
use did_crdt.Document.Genesis.Valid.{did-new}
use did_crdt.Gossip.{deltas, BootstrapPolicy, Docs, wants}
use did_crdt.Gossip.Inbound.{
  genesis_bootstrap, bootstrap_failed, bootstrap_error, bootstrapped, find_genesis, genesis_key,
  rooted, ignored_unsolicited, BootstrapError, retry, merge_known, merge_deltas, merge_inbound,
  merged,
}
use did_crdt.Gossip.Inbound.Retry.{Retried, retry-Retried}

Sum-cases : {A B : Type 0} (x : A ⊎ B) → ((a : A) × (x ≡ inl a)) ⊎ ((b : B) × (x ≡ inr b))
Sum-cases (inl a) = inl (a, refl)
Sum-cases (inr b) = inr (b, refl)

module _ {V : Type 0} (k : Crypto V) (c : Crates V) where
  -- The documents `docs'` are `docs` but for the one of `did`.
  abbrev pub Elsewhere : Did → Docs c → Docs c → Type 0
  Elsewhere did docs docs' =
      (other : Did) → eq? other did ≡ false → Map.get docs' other ≡ Map.get docs other

  -- `docs'` are `docs` where what comes of `doc` by the deltas stands under `did`.
  abbrev pub Takes : Did → List (SignedDelta V) → Document c → Docs c → Docs c → Type 0
  Takes did ds doc docs docs' =
      ((doc' : Document c) × (Map.get docs' did ≡ some doc') × Retried k c ds doc doc')
      × Elsewhere did docs docs'

  merge_known-Takes :
      (did : Did) (ds : List (SignedDelta V)) (doc : Document c) (docs docs' : Docs c)
      → Elsewhere did docs' docs
      → Takes did ds doc docs' (merge_known k c did ds doc docs)
  unfolding merge_known
  merge_known-Takes did ds doc docs docs' e = (
    (
      (retry k c (length ds) ds doc).0,
      ground
          (arith, get-insert did (retry k c (length ds) ds doc).0 did docs, text_ord.cmp_refl did),
      retry-Retried k c (length ds) ds doc (omega arith),
    ),
    λ other n.
        ground (arith, n, e other n, get-insert did (retry k c (length ds) ds doc).0 other docs),
  )

  module _ (s : Genesis V) where
    -- The branches of `merge_inbound` for deltas.
    inbound-known :
        (docs : Docs c) (did : Did) (ds : List (SignedDelta V)) (policy : BootstrapPolicy)
        (doc : Document c)
        → Map.get docs did ≡ some doc
        → merge_inbound k c s docs (deltas did ds) policy
          ≡ (merge_known k c did ds doc docs, merged)
    unfolding merge_inbound merge_deltas
    inbound-known docs did ds policy doc g = rw (g, merge_inbound, merge_deltas) refl

    inbound-ignored :
        (docs : Docs c) (did : Did) (ds : List (SignedDelta V)) (policy : BootstrapPolicy)
        → Map.get docs did ≡ none
        → wants policy did ≡ false
        → merge_inbound k c s docs (deltas did ds) policy ≡ (docs, ignored_unsolicited)
    unfolding merge_inbound merge_deltas
    inbound-ignored docs did ds policy g w = rw (g, w, merge_inbound, merge_deltas) refl

    inbound-wanted :
        (docs docs' : Docs c) (did : Did) (ds : List (SignedDelta V)) (policy : BootstrapPolicy)
        (failure : Option BootstrapError)
        → Map.get docs did ≡ none
        → wants policy did ≡ true
        → genesis_bootstrap k c s docs did ds ≡ (docs', failure)
        → merge_inbound k c s docs (deltas did ds) policy
          ≡ (docs', elim failure [ none ↦ bootstrapped did | some _ ↦ bootstrap_error ])
    unfolding merge_inbound merge_deltas
    inbound-wanted docs docs' did ds policy none g w b =
        rw (g, w, b, merge_inbound, merge_deltas) (ap (λ r. (r.0, bootstrapped did)) b)
    inbound-wanted docs docs' did ds policy (some e) g w b =
        rw (g, w, b, merge_inbound, merge_deltas) (ap (λ r. (r.0, bootstrap_error)) b)

    -- `docs'` are `docs` with a document for `did` that a key makes whose genesis delta is the only
    -- delta of `ds` without parents, and with what comes of it by the other deltas.
    abbrev pub Boots : Docs c → Did → List (SignedDelta V) → Docs c → Type 0
    Boots docs did ds docs' =
        (pk : Text) × (genesis : SignedDelta V) × (derive_did s pk ≡ did)
        × (find_genesis k c ds ≡ inr genesis)
        × (content_hash c.digest genesis ≡ content_hash c.digest (Genesis.new s c pk).1)
        × Takes did (rooted k c ds) (Genesis.new s c pk).0 docs docs'

    bootstrap-boots :
        (docs : Docs c) (did : Did) (ds : List (SignedDelta V)) (genesis : SignedDelta V)
        (pk : Text)
        → find_genesis k c ds ≡ inr genesis
        → genesis_key k c genesis ≡ some pk
        → eq? (Genesis.new s c pk).0.did did ≡ true
        → eq? (content_hash c.digest genesis) (content_hash c.digest (Genesis.new s c pk).1) ≡ true
        → genesis_bootstrap k c s docs did ds ≡ (
          merge_known k c did
              (rooted k c ds)
              (Genesis.new s c pk).0
              (Map.insert did (Genesis.new s c pk).0 docs),
          none,
        )
    unfolding genesis_bootstrap
    bootstrap-boots docs did ds genesis pk f g d h = rw (f, g, d, h, genesis_bootstrap) refl

    genesis_bootstrap-cases :
        (docs : Docs c) (did : Did) (ds : List (SignedDelta V))
        → ((e : BootstrapError) × (genesis_bootstrap k c s docs did ds ≡ (docs, some e)))
          ⊎ ((docs' : Docs c) × (genesis_bootstrap k c s docs did ds ≡ (docs', none))
              × Boots docs did ds docs')
    unfolding genesis_bootstrap
    genesis_bootstrap-cases docs did ds = elim (Sum-cases (find_genesis k c ds)) [
      | inl (e, f) ↦ inl (e, rw (f, genesis_bootstrap) refl)
      | inr (genesis, f) ↦ elim (Option-cases (genesis_key k c genesis)) [
        | inl g ↦ inl (bootstrap_failed, rw (f, g, genesis_bootstrap) refl)
        | inr (pk, g) ↦ elim (Bool-cases (eq? (Genesis.new s c pk).0.did did)) [
          | inr d ↦ inl (bootstrap_failed, rw (f, g, d, genesis_bootstrap) refl)
          | inl d ↦
              elim (Bool-cases (
                eq? (content_hash c.digest genesis)
                  (content_hash c.digest (Genesis.new s c pk).1))) [
                    | inr h ↦ inl (bootstrap_failed, rw (f, g, d, h, genesis_bootstrap) refl)
                    | inl h ↦
                        let new = (Genesis.new s c pk).0 in
                        inr (
                          merge_known k c did (rooted k c ds) new (Map.insert did new docs),
                          bootstrap-boots docs did ds genesis pk f g d h,
                          (
                            pk,
                            genesis,
                            sym (did-new s c pk)
                                ∙ ground (arith, d, text_ord.eq_of_cmp new.did did),
                            f,
                            ground (
                              arith,
                              h,
                              text_ord.eq_of_cmp (content_hash c.digest genesis)
                                  (content_hash c.digest (Genesis.new s c pk).1),
                            ),
                            merge_known-Takes did (rooted k c ds) new (Map.insert did new docs) docs
                                (λ other n. ground (arith, n, get-insert did new other docs)),
                          ),
                        )
                  ]
        ]
      ]
    ]

    -- Deltas for a DID from the network: if the DID is held, its document comes of the old one by
    -- verified merges, each of the deltas is in the end held, or was refused on the way for another
    -- reason than missing parents, or still lacks parents, and no other document changes; if it is
    -- neither held nor wanted, nothing changes; if it is wanted, either the bootstrap fails and
    -- nothing changes, or the only delta without parents is the genesis delta of a key whose DID
    -- this is, and the new document comes of the one that this key makes in the same way.
    pub merge_inbound_lem :
        (docs : Docs c) (did : Did) (ds : List (SignedDelta V)) (policy : BootstrapPolicy)
        → ((doc : Document c) × (docs' : Docs c) × (Map.get docs did ≡ some doc)
            × (merge_inbound k c s docs (deltas did ds) policy ≡ (docs', merged))
            × Takes did ds doc docs docs')
          ⊎ ((Map.get docs did ≡ none)
              × (wants policy did ≡ false)
              × (merge_inbound k c s docs (deltas did ds) policy ≡ (docs, ignored_unsolicited)))
          ⊎ ((Map.get docs did ≡ none)
              × (wants policy did ≡ true)
              × (merge_inbound k c s docs (deltas did ds) policy ≡ (docs, bootstrap_error)))
          ⊎ ((docs' : Docs c) × (Map.get docs did ≡ none)
              × (wants policy did ≡ true)
              × (merge_inbound k c s docs (deltas did ds) policy ≡ (docs', bootstrapped did))
              × Boots docs did ds docs')
    merge_inbound_lem docs did ds policy = elim (Option-cases (Map.get docs did)) [
      | inr (doc, g) ↦ inl (
        doc,
        merge_known k c did ds doc docs,
        g,
        inbound-known docs did ds policy doc g,
        merge_known-Takes did ds doc docs docs (λ other n. refl),
      )
      | inl g ↦ elim (Bool-cases (wants policy did)) [
        | inr w ↦ inr (inl (g, w, inbound-ignored docs did ds policy g w))
        | inl w ↦ elim (genesis_bootstrap-cases docs did ds) [
          | inl (e, b) ↦
              inr (inr (inl (g, w, inbound-wanted docs docs did ds policy (some e) g w b)))
          | inr (docs', b, boots) ↦
              inr
                (inr (inr (docs', g, w, inbound-wanted docs docs' did ds policy none g w b, boots)))
        ]
      ]
    ]
