-- ===== src/Lib.antt =====
-- The core of did-crdt, the replicated DID documents of src/core: the CRDT fields of a document,
-- the signed deltas that change it, the store of those deltas with its causal closures, the rule by
-- which a delta is admitted, the check of signatures, and the exchange of deltas between replicas;
-- and of src/sync what a node asks for, answers and takes up.
--
-- A document is a product of CRDTs (src/core/crdt.rs). It changes by signed deltas
-- (src/core/delta.rs), each with the hashes of its causal parents and a timestamp of its author's
-- hybrid logical clock (src/core/hlc.rs). A replica keeps the deltas that it has in a store indexed
-- by hash (src/core/dag.rs), admits a new one by what lies below it in that store
-- (src/core/causal.rs, whose decisions form the lattice of src/core/admission.rs), and sends to
-- another what that one lacks (src/core/recon.rs). What comes from the network
-- (src/sync/protocol.rs, src/sync/gossip.rs) goes through the merges that verify signatures
-- (src/core/validate.rs), and a document that a node does not hold is made from its genesis delta,
-- whose key determines its DID (src/core/did.rs).
--
-- The parts:
-- - Base, Ord, Std: the numbers, tests and lists that all share; the trait `Ord` with its laws, and
--   the derived orders; ascending lists for `BTreeSet` and `HashSet`, ordered association lists for
--   `BTreeMap` and `HashMap`, `sort`, `dedup` and `sort_by`. No code that is modelled reads the
--   order in which a `HashMap` or a `HashSet` yields its elements.
-- - Error: the errors and the result type of src/core/mod.rs, without the texts of the messages.
-- - Hlc (src/core/hlc.rs): the clock; Hlc/Advance proves what its calls return.
-- - Delta (src/core/delta.rs): the deltas and their parts.
-- - Did (src/core/did.rs): the identifiers.
-- - Crdt (src/core/crdt.rs): Crdt/Services the add-wins set of service endpoints, Crdt/Sets the
--   grow-only sets and the latch, Crdt/Registers the last-writer-wins registers. Crdt/Crates says
--   what they use of the `crdts` crate.
-- - Dag (src/core/dag.rs): Dag/Insert proves what insertion keeps, Dag/Walk to Dag/Closure follow
--   the searches, Dag/Find and Dag/Collect say what these answer.
-- - Admission (src/core/admission.rs): the lattice of decisions.
-- - Causal (src/core/causal.rs): Causal/Scan and Causal/Decision say what a decision means, and
--   Causal/Stable what becomes of it when the store grows.
-- - Recon (src/core/recon.rs): Recon/Merge says what a bundle does to a store, Recon/Extract what a
--   bundle holds, Recon/Exchange and Recon/Peer what it carries from one store to another, and
--   Recon/Converge what two stores then hold.
-- - Resolve (src/core/resolve.rs): the names that document data may not set; Resolve/Shape has the
--   types of a resolved document.
-- - Validate (src/core/validate.rs): the recogniser of alias sets; Validate/Alias writes its
--   language out. Validate/Signature has `verify_signature` and `check_authorisation`.
-- - Document (src/core/document.rs): the document and its operations; Document/Admit says what the
--   guards of `merge` let through, Document/Valid what a document keeps to, and Document/State what
--   the merge of two states leaves. Document/Genesis is its creation. Document/Order is
--   `topo_order_bundle`: Document/Order/Steps are its steps where no look-up fails,
--   Document/Order/Degrees and Document/Order/Lowering what they count, Document/Order/Total why none
--   fails, and Document/Order/Drain its main loop. Document/Verified has the merges that verify
--   signatures; Document/Verified/Replay is the loop over a bundle, and their relation `Authentic` is
--   in Document/Verified/Signed. Document/Export has the bundles that
--   a document gives out, Document/Genesis/Key the key that its DID derives from, and
--   Document/Projection `resolve`; Document/Projection/Keys says what it shows.
-- - Gossip (src/sync/protocol.rs, src/sync/gossip.rs): the messages and the state of the protocol;
--   Gossip/Inbound has `merge_inbound` and `genesis_bootstrap`, Gossip/Inbound/Retry their loop,
--   and Gossip/Sound what a node's documents keep to.
-- - Examples: concrete replicas, on which the definitions run and the theorems apply.
--
-- A definition has the name of the Rust function or type that it translates, and the comment above
-- it says which one that is. A method that changes `self` is a function that returns the new value.
-- A field `is_revoked` stands for `revoked` where a constructor has that name.
--
-- Numbers are natural numbers. The one addition that can overflow, `logical + 1` on `u32` in the
-- clock, is written with its wrap as in a release build; a debug build panics there instead. A
-- `String` is the list of its bytes. The values of `serde_json` are a parameter `V`.
--
-- Code outside the repository is a parameter. `GSet` and `Lww` of Crdt/Crates are the grow-only set
-- and the register of the `crdts` crate with their documented laws; what a register does with two
-- different values under one marker is left open. BLAKE3 is the function `hash` in `rotate`, whose
-- values have 32 bytes, and the function `digest` from what a signature covers to the hash of a
-- delta; where a theorem needs that two texts have different hashes, it says of which two.
-- Serialisation does not fail here, so `insert` and `merge_bundle` have no such error. The
-- signature and the date format are parameters of `new_with_parents`.
--
-- The searches of the store are loops on fuel, `rounds`: one more than the length of the stack and
-- the number of parent links together. Each round pops one hash and each link pushes one at most,
-- so the loop ends before the fuel does, and Dag/Trace proves that it then has visited all that
-- lies below its roots. Every result about a search is therefore about the search run to its end.
-- The loop of `topo_order_bundle` has one round more than there are deltas, since each round puts
-- one into the order, and the loop of `merge_inbound` as many as there are deltas, since each round
-- but the last leaves fewer; Document/Order/Drain and Gossip/Inbound/Retry prove that they end.
--
-- A document takes all of these together, with the length of a delta as JSON, in its parameter
-- `Crates`. A call that fails returns the document as it is then, next to the error. Base64, BLAKE3
-- and the two signature suites are the parameter `Crypto`, with no law assumed of them; the hash of
-- the seed of a document is the parameter `Genesis`. In `topo_order_bundle`,
-- `merge_verified_bundle` and `method_specific_id` a panic is `none`: a look-up that is unwrapped,
-- an index, and a subtraction that falls below 0, which a release build would wrap.
--
-- Of what `resolve` returns, the version is a function of the content that it is a hash of
-- (`Rendering`), and a JSON string is its text.
--
-- Not modelled: the hash and the serialisation of a document (src/core/document.rs), canonical JSON
-- and dates (src/core/delta.rs), the closure that a handler adds to the metadata of a resolution
-- (src/core/resolve.rs), and what only does input and output: the engine around the gossip protocol
-- (src/sync/gossip.rs, src/sync/live.rs), storage, discovery and the HTTP service
-- (src/sync/store.rs, src/sync/dht.rs, src/service, src/anchor, src/bin).
pub mod Base
pub mod Ord
pub mod Std
pub mod Hlc
pub mod Error
pub mod Delta
pub mod Did
pub mod Crdt
pub mod Dag
pub mod Admission
pub mod Causal
pub mod Recon
pub mod Resolve
pub mod Validate
pub mod Document
pub mod Gossip
pub mod Examples
