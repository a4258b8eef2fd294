-- ===== src/Document/Valid.antt =====
-- src/core/document.rs: what a document keeps to under `merge`.
use did_crdt.Base.{◌≡◌, subst, sym, List, [], ◌∷◌, ◌++◌, ◌||◌, arith, inl, inr}
use did_crdt.Ord.{eq?, nat_ord}
use did_crdt.Ord.Text.{list_ord}
use did_crdt.Std.Map.{IsOrdered}
use did_crdt.Std.Set
use did_crdt.Std.Set.{IsAscending}
use did_crdt.Std.Set.Laws.{contains-insert}
use did_crdt.Hlc.{HlcTimestamp}
use did_crdt.Delta.{
  rotate_key, set_document_data, set_also_known_as, remove_service_endpoint, add_service_endpoint,
  add_verification_method, SignedDelta, DeltaOp, DeltaHash, content_hash, deactivate,
  revoke_credential, revoke_verification_method,
}
use did_crdt.Crdt.Registers.{alias_entries}
use did_crdt.Crdt.Registers.Data.{set_data-IsOrdered}
use did_crdt.Crdt.Registers.Fields.{set_aliases-IsAscending}
use did_crdt.Crdt.Services
use did_crdt.Crdt.Services.Live.{apply_add-IsValid, apply_remove-IsValid}
use did_crdt.Dag
use did_crdt.Dag.{DeltaDag}
use did_crdt.Dag.Insert
use did_crdt.Dag.Insert.{contains-insert_delta, insert-IsValid}
use did_crdt.Document.{Document, Crates, commit, merge, apply_op, logged, added_at}
use did_crdt.Document.Admit.{merge-cases, dag-commit}

module _ {V : Type 0} (c : Crates V) where
  -- The fields are in form, and the store holds exactly what the log does.
  pub record IsValid (doc : Document c) : Type 0 where
    pub dag_valid : Insert.IsValid doc.dag
    pub services_valid : Services.IsValid doc.service_endpoints
    pub data_ordered : IsOrdered doc.document_data
    pub aliases_ascending : IsAscending (alias_entries doc.also_known_as)
    pub log_held :
        (h : DeltaHash) → Dag.contains doc.dag h ≡ Set.contains (logged c doc.delta_log) h

  services-apply_op :
      (op : DeltaOp V) (t : HlcTimestamp) (ps : List DeltaHash) (doc : Document c)
      → Services.IsValid doc.service_endpoints
      → Services.IsValid (apply_op c op t ps doc).service_endpoints
  unfolding apply_op
  services-apply_op (add_verification_method i p s r) t ps doc v = v
  services-apply_op (add_service_endpoint i s e) t ps doc v =
      apply_add-IsValid _ t doc.service_endpoints v
  services-apply_op (remove_service_endpoint i) t ps doc v =
      apply_remove-IsValid (Dag.closure_collect doc.dag ps (added_at i)) t doc.service_endpoints v
  services-apply_op (set_also_known_as us) t ps doc v = v
  services-apply_op (set_document_data k x) t ps doc v = v
  services-apply_op (rotate_key n r) t ps doc v = v
  services-apply_op (revoke_credential i) t ps doc v = v
  services-apply_op (revoke_verification_method i) t ps doc v = v
  services-apply_op deactivate t ps doc v = v

  data-apply_op :
      (op : DeltaOp V) (t : HlcTimestamp) (ps : List DeltaHash) (doc : Document c)
      → IsOrdered doc.document_data
      → IsOrdered (apply_op c op t ps doc).document_data
  unfolding apply_op
  data-apply_op (add_verification_method i p s r) t ps doc v = v
  data-apply_op (add_service_endpoint i s e) t ps doc v = v
  data-apply_op (remove_service_endpoint i) t ps doc v = v
  data-apply_op (set_also_known_as us) t ps doc v = v
  data-apply_op (set_document_data k x) t ps doc v =
      set_data-IsOrdered c.null c.values k x t doc.document_data v
  data-apply_op (rotate_key n r) t ps doc v = v
  data-apply_op (revoke_credential i) t ps doc v = v
  data-apply_op (revoke_verification_method i) t ps doc v = v
  data-apply_op deactivate t ps doc v = v

  aliases-apply_op :
      (op : DeltaOp V) (t : HlcTimestamp) (ps : List DeltaHash) (doc : Document c)
      → IsAscending (alias_entries doc.also_known_as)
      → IsAscending (alias_entries (apply_op c op t ps doc).also_known_as)
  unfolding apply_op
  aliases-apply_op (add_verification_method i p s r) t ps doc v = v
  aliases-apply_op (add_service_endpoint i s e) t ps doc v = v
  aliases-apply_op (remove_service_endpoint i) t ps doc v = v
  aliases-apply_op (set_also_known_as us) t ps doc v =
      set_aliases-IsAscending c.aliases us t doc.also_known_as v
  aliases-apply_op (set_document_data k x) t ps doc v = v
  aliases-apply_op (rotate_key n r) t ps doc v = v
  aliases-apply_op (revoke_credential i) t ps doc v = v
  aliases-apply_op (revoke_verification_method i) t ps doc v = v
  aliases-apply_op deactivate t ps doc v = v

  pub contains-logged :
      (ds : List (SignedDelta V)) (d : SignedDelta V) (h : DeltaHash)
      → Set.contains (logged c (ds ++ d ∷ [])) h
        ≡ (Set.contains (logged c ds) h || eq? h (content_hash c.digest d))
  unfolding logged Set.contains
  contains-logged [] d h = ground (arith, contains-insert (content_hash c.digest d) h [])
  contains-logged (e ∷ ds) d h = ground (
    arith,
    contains-logged ds d h,
    contains-insert (content_hash c.digest e) h (logged c (ds ++ d ∷ [])),
    contains-insert (content_hash c.digest e) h (logged c ds),
  )

  log-commit :
      (d : SignedDelta V) (doc : Document c) → (commit c d doc).delta_log ≡ doc.delta_log ++ d ∷ []
  unfolding commit apply_op
  log-commit d doc = ground arith

  IsValid-commit : (d : SignedDelta V) (doc : Document c) → IsValid doc → IsValid (commit c d doc)
  unfolding commit
  IsValid-commit d doc v = record {
    dag_valid =
        subst Insert.IsValid (sym (dag-commit c d doc))
          (insert-IsValid c.digest d doc.dag v.dag_valid);
    services_valid = services-apply_op d.op d.timestamp d.parents doc v.services_valid;
    data_ordered = data-apply_op d.op d.timestamp d.parents doc v.data_ordered;
    aliases_ascending = aliases-apply_op d.op d.timestamp d.parents doc v.aliases_ascending;
    log_held = λ h. ground (
      arith,
      dag-commit c d doc,
      log-commit d doc,
      contains-insert_delta c.digest d doc.dag h,
      contains-logged doc.delta_log d h,
      v.log_held h,
    );
  }

  -- A valid document is valid after `merge`, be the delta accepted or refused: store, services,
  -- document data and aliases stay in form, and the store holds exactly the deltas of the log.
  pub IsValid-merge :
      (d : SignedDelta V) (doc : Document c) → IsValid doc → IsValid (merge c d doc).0
  IsValid-merge d doc v = elim (merge-cases c d doc) [
    | inl (e, a, m) ↦ subst (λ r. IsValid r.0) (sym m) v
    | inr (inl (a, m)) ↦ subst (λ r. IsValid r.0) (sym m) v
    | inr (inr (a, m)) ↦ subst (λ r. IsValid r.0) (sym m) (IsValid-commit d doc v)
  ]
