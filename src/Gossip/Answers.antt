-- ===== src/Gossip/Answers.antt =====
-- src/sync/gossip.rs, `GossipState::handle`: what a node broadcasts.
use did_crdt.Base.{refl, List, ◌∷◌, Bool-cases, inl, inr, ◌≡◌, true, [], none, arith}
use did_crdt.Ord.{nat_ord, pair_ord}
use did_crdt.Ord.Text.{list_ord}
use did_crdt.Std.Set
use did_crdt.Std.Set.Laws.{contains-insert}
use did_crdt.Hlc.{HlcTimestamp}
use did_crdt.Delta.{Did}
use did_crdt.Document.{Crates}
use did_crdt.Gossip.{
  request, deltas, SyncMessage, announce, Blake3Hash, BootstrapPolicy, GossipState, Docs, handle,
  mark_seen,
}

-- A pair that was seen stays seen.
mark_seen-keeps :
    (did other : Did) (hash hash' : Blake3Hash) (state : GossipState)
    → Set.contains state.seen (other, hash') ≡ true
    → Set.contains (mark_seen did hash state).0.seen (other, hash') ≡ true
unfolding mark_seen
mark_seen-keeps did other hash hash' state h =
    ground (arith, h, contains-insert (did, hash) (other, hash') state.seen)

mark_seen-marks :
    (did : Did) (hash : Blake3Hash) (state : GossipState)
    → Set.contains (mark_seen did hash state).0.seen (did, hash) ≡ true
unfolding mark_seen
mark_seen-marks did hash state = ground (
  arith,
  contains-insert (did, hash) (did, hash) state.seen,
  (pair_ord {S = Did} {T = Blake3Hash}).cmp_refl (did, hash),
)

module _ {V : Type 0} (c : Crates V) where
  handle-keeps :
      (msg : SyncMessage V) (docs : Docs c) (policy : BootstrapPolicy) (state : GossipState)
      (did : Did) (hash : Blake3Hash)
      → Set.contains state.seen (did, hash) ≡ true
      → Set.contains (handle c msg docs policy state).0.seen (did, hash) ≡ true
  unfolding handle
  handle-keeps (announce other hash' clock) docs policy state did hash h =
      elim (Bool-cases (mark_seen other hash' state).1) [
        | inl e ↦ rw (e, handle) (mark_seen-keeps other did hash' hash state h)
        | inr e ↦ rw (e, handle) (mark_seen-keeps other did hash' hash state h)
      ]
  handle-keeps (request other frontier) docs policy state did hash h = h
  handle-keeps (deltas other ds) docs policy state did hash h = h

  -- A message, with the documents and the policy when it arrives.
  abbrev pub Arrival : Type 0
  Arrival = SyncMessage V × (Docs c × BootstrapPolicy)

  -- The state after a sequence of arrivals.
  unfoldable pub after : List Arrival → GossipState → GossipState
  after [] state = state
  after (a ∷ arrivals) state = after arrivals (handle c a.0 a.1.0 a.1.1 state).0

  after-keeps :
      (arrivals : List Arrival) (state : GossipState) (did : Did) (hash : Blake3Hash)
      → Set.contains state.seen (did, hash) ≡ true
      → Set.contains (after arrivals state).seen (did, hash) ≡ true
  unfolding after
  after-keeps [] state did hash h = h
  after-keeps (a ∷ arrivals) state did hash h =
      after-keeps arrivals (handle c a.0 a.1.0 a.1.1 state).0 did hash
        (handle-keeps a.0 a.1.0 a.1.1 state did hash h)

  silent :
      (state : GossipState) (docs : Docs c) (policy : BootstrapPolicy) (did : Did)
      (hash : Blake3Hash) (clock : HlcTimestamp)
      → Set.contains state.seen (did, hash) ≡ true
      → (handle c (announce did hash clock) docs policy state).1 ≡ ([], none)
  unfolding handle mark_seen
  silent state docs policy did hash clock h = rw (h) refl

  marked :
      (state : GossipState) (docs : Docs c) (policy : BootstrapPolicy) (did : Did)
      (hash : Blake3Hash) (clock : HlcTimestamp)
      → Set.contains (handle c (announce did hash clock) docs policy state).0.seen (did, hash)
        ≡ true
  unfolding handle mark_seen
  marked state docs policy did hash clock = elim (Bool-cases (mark_seen did hash state).1) [
    | inl e ↦ rw (e, handle) (mark_seen-marks did hash state)
    | inr e ↦ rw (e, handle) (mark_seen-marks did hash state)
  ]

  -- Once a node has handled an announcement of a state of a DID, it answers no further announcement
  -- of that state, whatever messages come between and whatever documents and policy it then has.
  pub handle_once :
      (state : GossipState) (first second : Docs c) (policy policy' : BootstrapPolicy) (did : Did)
      (hash : Blake3Hash) (clock clock' : HlcTimestamp) (arrivals : List Arrival)
      → (handle c
          (announce did hash clock')
          second
          policy'
          (after arrivals (handle c (announce did hash clock) first policy state).0)).1
        ≡ ([], none)
  handle_once state first second policy policy' did hash clock clock' arrivals =
      let before = (handle c (announce did hash clock) first policy state).0 in
      silent (after arrivals before) second policy' did hash clock'
        (after-keeps arrivals before did hash (marked state first policy did hash clock))
