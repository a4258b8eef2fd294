-- ===== src/Gossip.antt =====
-- src/sync/protocol.rs and src/sync/gossip.rs: the messages, what a node asks for, and what it answers.
-- `BootstrapPolicy` keeps its set of DIDs behind a lock, so its operations are functions of the set.
pub mod Inbound
pub mod Sound
pub mod Answers
use did_crdt.Base.{
  Bool, true, false, not, ◌||◌, List, [], ◌∷◌, Option, none, some, ℕ, if◌then◌else◌,
}
use did_crdt.Ord.{pair_ord, nat_ord}
use did_crdt.Ord.Text.{list_ord}
use did_crdt.Std.Map
use did_crdt.Std.Map.{Map}
use did_crdt.Std.Set
use did_crdt.Hlc.{HlcTimestamp}
use did_crdt.Error.{Result, ok, err}
use did_crdt.Delta.{Did, DeltaHash, SignedDelta}
use did_crdt.Recon.{deltas_for_peer}
use did_crdt.Document.{Crates, Document}

-- `Blake3Hash`, as its bytes.
abbrev pub Blake3Hash : Type 0
Blake3Hash = List ℕ

-- `enum SyncMessage`.
pub data SyncMessage (V : Type 0) : Type 0 where
  announce : Did → Blake3Hash → HlcTimestamp → SyncMessage V
  request : Did → List DeltaHash → SyncMessage V
  deltas : Did → List (SignedDelta V) → SyncMessage V

-- `struct BootstrapPolicy`.
pub record BootstrapPolicy : Type 0 where
  pub wanted : List Did
  pub replicate_all : Bool

-- `BootstrapPolicy::solicited_only`, `BootstrapPolicy::replicate_all`.
unfoldable pub solicited_only : BootstrapPolicy
solicited_only = record { wanted = []; replicate_all = false }

unfoldable pub replicate_all : BootstrapPolicy
replicate_all = record { wanted = []; replicate_all = true }

-- `wants`, `add_wanted`, `remove_wanted`.
unfoldable pub wants : BootstrapPolicy → Did → Bool
wants policy did = policy.replicate_all || Set.contains policy.wanted did

unfoldable pub add_wanted : Did → BootstrapPolicy → BootstrapPolicy
add_wanted did policy = record policy { wanted = Set.insert did policy.wanted }

unfoldable pub remove_wanted : Did → BootstrapPolicy → BootstrapPolicy
remove_wanted did policy = record policy { wanted = Set.remove did policy.wanted }

-- `struct GossipState`.
pub record GossipState : Type 0 where
  pub seen : List (Did × Blake3Hash)

-- `GossipState::new`.
unfoldable pub new : GossipState
new = record { seen = [] }

-- `GossipState::mark_seen`.
unfoldable pub mark_seen : Did → Blake3Hash → GossipState → GossipState × Bool
mark_seen did hash state =
    (record { seen = Set.insert (did, hash) state.seen }, not (Set.contains state.seen (did, hash)))

module _ {V : Type 0} (c : Crates V) where
  -- The node's documents.
  abbrev pub Docs : Type 0
  Docs = Map Did (Document c)

  -- The answer to an announcement that is new.
  unfoldable pub answer_announce : Did → Docs → BootstrapPolicy → List (SyncMessage V)
  unfolding wants
  answer_announce did docs policy = elim (Map.get docs did) [
    | some doc ↦ request did doc.dag.frontier ∷ []
    | none ↦ if wants policy did then request did [] ∷ [] else []
  ]

  -- The answer to a request.
  unfoldable pub answer_request : Did → List DeltaHash → Docs → List (SyncMessage V)
  answer_request did frontier docs = elim (Map.get docs did) [
    | none ↦ []
    | some doc ↦ elim (deltas_for_peer c.digest doc.dag frontier) [
      | ok [] ↦ []
      | ok (d ∷ ds) ↦ deltas did (d ∷ ds) ∷ []
      | err e ↦ []
    ]
  ]

  -- `GossipState::handle`: what it broadcasts, and what the caller has to merge.
  unfoldable pub handle :
      SyncMessage V
      → Docs
      → BootstrapPolicy
      → GossipState
      → GossipState × (List (SyncMessage V) × Option (SyncMessage V))
  unfolding mark_seen answer_announce answer_request
  handle (announce did hash clock) docs policy state =
      let (state', is_new) = mark_seen did hash state in
      if not is_new then (state', ([], none)) else (state', (answer_announce did docs policy, none))
  handle (request did frontier) docs policy state =
      (state, (answer_request did frontier docs, none))
  handle (deltas did ds) docs policy state = (state, ([], some (deltas did ds)))

  -- `GossipEngine::announce`: the broadcast of a document whose state has the hash `hash`.
  unfoldable pub announce_document :
      Document c → Blake3Hash → HlcTimestamp → GossipState → GossipState × List (SyncMessage V)
  unfolding mark_seen
  announce_document doc hash clock state =
      let (state', is_new) = mark_seen doc.did hash state in
      if not is_new then (state', []) else (state', announce doc.did hash clock ∷ [])
