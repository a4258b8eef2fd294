-- ===== src/Document/Genesis/Valid.antt =====
-- src/core/document.rs, `Document::new`: the document that it makes.
use did_crdt.Base.{◌++◌, ◌∷◌, ◌≡◌, ◌≢◌, refl, [], arith}
use did_crdt.Ord.{nat_ord}
use did_crdt.Ord.Text.{Text, list_ord}
use did_crdt.Std.Map
use did_crdt.Std.Set
use did_crdt.Std.Set.Laws.{contains-insert}
use did_crdt.Delta.{ed25519_signature2020, default_relationships, SignedDelta, content_hash}
use did_crdt.Crdt.Registers.{alias_entries, new_aliases}
use did_crdt.Crdt.Services.Live
use did_crdt.Crdt.Sets.{VerificationMethodEntry, insert_method, method_entries}
use did_crdt.Dag
use did_crdt.Dag.Insert.{insert-IsValid, contains-insert_delta, new-IsValid}
use did_crdt.Document.{Crates, Document, apply_op, logged}
use did_crdt.Document.Genesis
use did_crdt.Document.Genesis.{key_0, blank, derive_did, Genesis}
use did_crdt.Document.Valid.{IsValid}

module _ {V : Type 0} (s : Genesis V) (c : Crates V) (public_key_multibase : Text) where
  abbrev made : Document c × SignedDelta V
  made = Genesis.new s c public_key_multibase

  abbrev pub made_entry : VerificationMethodEntry
  made_entry = record {
    id = derive_did s public_key_multibase ++ key_0;
    public_key_multibase = public_key_multibase;
    suite_type = ed25519_signature2020;
    relationships = default_relationships;
  }

  pub did-new : made.0.did ≡ derive_did s public_key_multibase
  unfolding Genesis.new apply_op blank
  did-new = refl

  pub dag-new : made.0.dag ≡ Dag.insert c.digest made.1 Dag.new
  unfolding Genesis.new apply_op blank
  dag-new = refl

  log-new : made.0.delta_log ≡ made.1 ∷ []
  unfolding Genesis.new apply_op blank
  log-new = refl

  pub methods-new : method_entries c.methods made.0.verification_methods ≢ []
  unfolding Genesis.new apply_op blank method_entries insert_method Set.insert
  methods-new z =
      ground (arith, z, c.methods.read_insert made_entry c.methods.new, c.methods.read_new)

  pub IsValid-new : IsValid c made.0
  unfolding Genesis.new apply_op blank new_aliases logged Dag.contains Dag.get Dag.new Map.get
      Set.contains alias_entries
  IsValid-new = record {
    dag_valid = insert-IsValid c.digest made.1 Dag.new new-IsValid;
    services_valid = Live.new-IsValid;
    data_ordered = tt;
    aliases_ascending = tt;
    log_held = λ h. ground (
      arith,
      dag-new,
      log-new,
      contains-insert_delta c.digest made.1 Dag.new h,
      contains-insert (content_hash c.digest made.1) h [],
    );
  }
