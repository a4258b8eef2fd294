-- ===== src/Examples/Nodes.antt =====
-- Nodes that receive deltas for a document they hold and for one they asked for.
use did_crdt.Base.{ℕ, ◌≡◌, ◌≤◌, true, false, List, [], ◌∷◌, some, none, length, ◌⊎◌, arith}
use did_crdt.Ord.{nat_ord}
use did_crdt.Ord.Text.{list_ord}
use did_crdt.Std.Map
use did_crdt.Delta.{Did, SignedDelta}
use did_crdt.Document.{Document}
use did_crdt.Document.Genesis.{derive_did}
use did_crdt.Examples.Bundles.{seeds, crypto, public_key, made, creation, update}
use did_crdt.Examples.Documents.{crates}
use did_crdt.Examples.Parts.{at}
use did_crdt.Gossip.{solicited_only, announce, deltas, replicate_all, wants, handle, Docs, new}
use did_crdt.Gossip.Answers.{after, handle_once}
use did_crdt.Gossip.Inbound.{
  merge_inbound, merged, ignored_unsolicited, bootstrap_error, bootstrapped, retry,
}
use did_crdt.Gossip.Inbound.Bootstrap.{Takes, Boots, merge_inbound_lem}
use did_crdt.Gossip.Inbound.Retry.{Retried, retry-Retried}
use did_crdt.Gossip.Sound.{AllSound, merge_inbound-AllSound}

-- The node's documents: none.
abbrev nothing : Docs crates
nothing = []

abbrev here : Did
here = derive_did seeds public_key

-- The update twice, once before its parent.
abbrev batch : List (SignedDelta ℕ)
batch = update ∷ creation ∷ update ∷ []

length-batch : length batch ≤ 3
length-batch = omega arith

retry-Retried_example : Retried crypto crates batch made (retry crypto crates 3 batch made).0
retry-Retried_example = retry-Retried crypto crates 3 batch made length-batch

-- A node that holds nothing.
merge_inbound_lem_example :
    ((doc : Document crates) × (docs' : Docs crates) × (Map.get nothing here ≡ some doc)
      × (merge_inbound crypto crates seeds nothing (deltas here batch) replicate_all
          ≡ (docs', merged))
      × Takes crypto crates here batch doc nothing docs')
    ⊎ ((Map.get nothing here ≡ none)
        × (wants replicate_all here ≡ false)
        × (merge_inbound crypto crates seeds nothing (deltas here batch) replicate_all
            ≡ (nothing, ignored_unsolicited)))
    ⊎ ((Map.get nothing here ≡ none)
        × (wants replicate_all here ≡ true)
        × (merge_inbound crypto crates seeds nothing (deltas here batch) replicate_all
            ≡ (nothing, bootstrap_error)))
    ⊎ ((docs' : Docs crates) × (Map.get nothing here ≡ none)
        × (wants replicate_all here ≡ true)
        × (merge_inbound crypto crates seeds nothing (deltas here batch) replicate_all
            ≡ (docs', bootstrapped here))
        × Boots crypto crates seeds nothing here batch docs')
merge_inbound_lem_example = merge_inbound_lem crypto crates seeds nothing here batch replicate_all

nothing-AllSound : AllSound crypto crates nothing
unfolding Map.get
nothing-AllSound did doc h = cc

abbrev bootstrapped_node : Docs crates
bootstrapped_node = (merge_inbound crypto crates seeds nothing (deltas here batch) replicate_all).0

bootstrapped_node-AllSound : AllSound crypto crates bootstrapped_node
bootstrapped_node-AllSound =
    merge_inbound-AllSound crypto crates seeds nothing (deltas here batch) replicate_all
      nothing-AllSound

merge_inbound-AllSound_example :
    AllSound crypto crates
      (merge_inbound crypto crates seeds bootstrapped_node (deltas here batch) solicited_only).0
merge_inbound-AllSound_example =
    merge_inbound-AllSound crypto crates seeds bootstrapped_node (deltas here batch) solicited_only
      bootstrapped_node-AllSound

handle_once_example :
    (handle crates (announce (9 ∷ []) (1 ∷ []) (at 8 2)) [] replicate_all (
      after crates
        ((deltas (9 ∷ []) batch, ([], solicited_only)) ∷ [])
        (handle crates (announce (9 ∷ []) (1 ∷ []) (at 3 2)) [] solicited_only new).0)).1
    ≡ ([], none)
handle_once_example =
    handle_once crates new [] [] solicited_only replicate_all (9 ∷ []) (1 ∷ []) (at 3 2) (at 8 2)
      ((deltas (9 ∷ []) batch, ([], solicited_only)) ∷ [])
