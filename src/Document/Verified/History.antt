-- ===== src/Document/Verified/History.antt =====
-- src/core/document.rs: what the documents that come of a document by verified merges keep of it.
use did_crdt.Base.{◌∙◌, refl, true, false, ◌≡◌, inl, inr, arith}
use did_crdt.Ord.Text.{text_ord}
use did_crdt.Error.{ok}
use did_crdt.Delta.{DeltaHash, SignedDelta, content_hash}
use did_crdt.Dag
use did_crdt.Validate.Signature.{Crypto}
use did_crdt.Document.{merge, Crates, Document}
use did_crdt.Document.Admit.{merge-cases, did-commit}
use did_crdt.Document.Valid.{IsValid, IsValid-merge}
use did_crdt.Document.Verified.Signed.{dag-merge, Authentic, same, more}

module _ {V : Type 0} (k : Crypto V) (c : Crates V) where
  pub Authentic-trans :
      (x y z : Document c) → Authentic k c x y → Authentic k c y z → Authentic k c x z
  Authentic-trans x y _ a same = a
  Authentic-trans x y _ a (more z d b n v m) = more z d (Authentic-trans x y z a b) n v m

  -- What is held stays held.
  pub Authentic-holds :
      (x y : Document c) (h : DeltaHash)
      → Authentic k c x y
      → Dag.contains x.dag h ≡ true
      → Dag.contains y.dag h ≡ true
  unfolding Dag.contains
  Authentic-holds x _ h same e = e
  Authentic-holds x _ h (more y d a n v m) e =
      ground (arith, Authentic-holds x y h a e, dag-merge k c d y n m h)

  pub holds_merged :
      (d : SignedDelta V) (doc : Document c)
      → Dag.contains doc.dag (content_hash c.digest d) ≡ false
      → (merge c d doc).1 ≡ ok tt
      → Dag.contains (merge c d doc).0.dag (content_hash c.digest d) ≡ true
  unfolding Dag.contains
  holds_merged d doc n m = ground (
    arith,
    dag-merge k c d doc n m (content_hash c.digest d),
    text_ord.cmp_refl (content_hash c.digest d),
  )

  pub Authentic-IsValid : (x y : Document c) → Authentic k c x y → IsValid c x → IsValid c y
  Authentic-IsValid x _ same v = v
  Authentic-IsValid x _ (more y d a n e m) v = IsValid-merge c d y (Authentic-IsValid x y a v)

  did-merge : (d : SignedDelta V) (doc : Document c) → (merge c d doc).0.did ≡ doc.did
  did-merge d doc = elim (merge-cases c d doc) [
    | inl (e, a, m) ↦ ground (arith, m)
    | inr (inl (a, m)) ↦ ground (arith, m)
    | inr (inr (a, m)) ↦ ground (arith, m, did-commit c d doc)
  ]

  pub did-Authentic : (x y : Document c) → Authentic k c x y → y.did ≡ x.did
  did-Authentic x _ same = refl
  did-Authentic x _ (more y d a n e m) = did-merge d y ∙ did-Authentic x y a
