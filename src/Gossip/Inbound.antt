-- ===== src/Gossip/Inbound.antt =====
-- src/sync/gossip.rs: what a node makes of the deltas that it receives, `merge_inbound` and
-- `genesis_bootstrap`.
pub mod Settle
pub mod Retry
pub mod Bootstrap
use did_crdt.Base.{
  ℕ, zero, suc, Bool, true, false, not, ◌||◌, List, [], ◌∷◌, Option, none, some, length, ◌⊎◌, inl,
  inr, if◌then◌else◌,
}
use did_crdt.Ord.{nat_ord, eq?}
use did_crdt.Ord.Text.{Text, list_ord}
use did_crdt.Std.Map
use did_crdt.Std.Map.{Map}
use did_crdt.Error.{Error, delta_pending, Result, ok, err}
use did_crdt.Delta.{Did, DeltaHash, DeltaOp, add_verification_method, SignedDelta, content_hash}
use did_crdt.Validate.Signature.{Crypto}
use did_crdt.Document.{Crates, Document}
use did_crdt.Document.Genesis
use did_crdt.Document.Genesis.{Genesis}
use did_crdt.Document.Verified.{merge_verified_delta}
use did_crdt.Gossip.{SyncMessage, announce, request, deltas, BootstrapPolicy, Docs, wants}

-- `enum BootstrapError`.
pub data BootstrapError : Type 0 where
  partial_history : BootstrapError
  bootstrap_failed : BootstrapError

-- `enum MergeOutcome`; the constructor for `BootstrapError` takes another name.
pub data MergeOutcome : Type 0 where
  noop : MergeOutcome
  merged : MergeOutcome
  bootstrapped : Did → MergeOutcome
  bootstrap_error : MergeOutcome
  ignored_unsolicited : MergeOutcome

abbrev pub is_pending : Result (Unit {0}) → Bool
is_pending (err (delta_pending _)) = true
is_pending _ = false

abbrev pub is_nil : {A : Type 0} → List A → Bool
is_nil [] = true
is_nil (x ∷ xs) = false

module _ {V : Type 0} (k : Crypto V) (c : Crates V) where
  -- The loop over `pending`: the document, `progressed`, and `still`.
  unfoldable pub sweep :
      List (SignedDelta V) → Document c → Document c × (Bool × List (SignedDelta V))
  unfolding merge_verified_delta
  sweep [] doc = (doc, (false, []))
  sweep (d ∷ ds) doc =
      let (doc', result) = merge_verified_delta k c d doc in
      let (doc'', (progressed, still)) = sweep ds doc' in
      if is_pending result then (doc'', (progressed, d ∷ still)) else (doc'', (true, still))

  -- The `loop` of `merge_inbound`: the document, and the deltas that are still pending. Each round
  -- but the last leaves fewer of them, so as many rounds as there are deltas are enough.
  unfoldable pub retry : ℕ → List (SignedDelta V) → Document c → Document c × List (SignedDelta V)
  unfolding sweep
  retry zero pending doc = (doc, pending)
  retry (suc fuel) pending doc =
      let (doc', (progressed, still)) = sweep pending doc in
      let again = retry fuel still doc' in
      if is_nil still || not progressed then (doc', still) else again

  -- `merge_inbound` for a DID that is held.
  unfoldable pub merge_known : Did → List (SignedDelta V) → Document c → Docs c → Docs c
  unfolding retry
  merge_known did ds doc docs = Map.insert did (retry (length ds) ds doc).0 docs

  -- The deltas without parents, and those with parents.
  unfoldable pub rootless : List (SignedDelta V) → List (SignedDelta V)
  rootless [] = []
  rootless (d ∷ ds) = let rest = rootless ds in if is_nil d.parents then d ∷ rest else rest

  unfoldable pub rooted : List (SignedDelta V) → List (SignedDelta V)
  rooted [] = []
  rooted (d ∷ ds) = let rest = rooted ds in if is_nil d.parents then rest else d ∷ rest

  -- The public key of a genesis delta.
  unfoldable pub genesis_key : SignedDelta V → Option Text
  genesis_key d = elim d.op [
    | add_verification_method _ public_key_multibase _ _ ↦ some public_key_multibase
    | _ ↦ none
  ]

  -- The only delta without parents.
  unfoldable pub find_genesis : List (SignedDelta V) → BootstrapError ⊎ SignedDelta V
  unfolding rootless
  find_genesis ds = elim (rootless ds) [
    | [] ↦ inl partial_history
    | d ∷ [] ↦ inr d
    | d ∷ e ∷ es ↦ inl bootstrap_failed
  ]

  module _ (s : Genesis V) where
    -- `genesis_bootstrap`; its call of `merge_inbound` is for a DID that is held by then.
    -- `Document::new` and `content_hash` do not fail.
    unfoldable pub genesis_bootstrap :
        Docs c → Did → List (SignedDelta V) → Docs c × Option BootstrapError
    unfolding find_genesis genesis_key Genesis.new rooted merge_known content_hash
    genesis_bootstrap docs did ds = elim (find_genesis ds) [
      | inl e ↦ (docs, some e)
      | inr genesis ↦ elim (genesis_key genesis) [
        | none ↦ (docs, some bootstrap_failed)
        | some public_key_multibase ↦
            let (reconstructed, computed_genesis) = Genesis.new s c public_key_multibase in
            if not (eq? reconstructed.did did)
            then (docs, some bootstrap_failed)
            else if not
                (eq? (content_hash c.digest genesis) (content_hash c.digest computed_genesis))
            then (docs, some bootstrap_failed)
            else (
              merge_known did (rooted ds) reconstructed (Map.insert did reconstructed docs),
              none,
            )
      ]
    ]

    -- `merge_inbound` for the deltas of a DID.
    unfoldable pub merge_deltas :
        Docs c → Did → List (SignedDelta V) → BootstrapPolicy → Docs c × MergeOutcome
    unfolding genesis_bootstrap wants merge_known
    merge_deltas docs did ds policy = elim (Map.get docs did) [
      | none ↦
          if not (wants policy did)
          then (docs, ignored_unsolicited)
          else (let (docs', failure) = genesis_bootstrap docs did ds in
              elim failure [ none ↦ (docs', bootstrapped did) | some _ ↦ (docs', bootstrap_error) ])
      | some doc ↦ (merge_known did ds doc docs, merged)
    ]

    -- `merge_inbound`.
    unfoldable pub merge_inbound : Docs c → SyncMessage V → BootstrapPolicy → Docs c × MergeOutcome
    unfolding merge_deltas
    merge_inbound docs (announce _ _ _) policy = (docs, noop)
    merge_inbound docs (request _ _) policy = (docs, noop)
    merge_inbound docs (deltas did ds) policy = merge_deltas docs did ds policy
