-- ===== src/Document/Export/Whole.antt =====
-- src/core/document.rs: the bundles that a document gives away carry its whole history.
use did_crdt.Base.{
  if◌then◌else◌, ◌∙◌, sym, Option-cases, false, ◌≡◌, ap, refl, true, List, [], ◌∷◌, none, some,
  arith, ◌⊎◌, inl, inr,
}
use did_crdt.Ord.{lt?, nat_ord, ◌≺◌}
use did_crdt.Ord.Text.{list_ord, text_ord}
use did_crdt.Std.Map
use did_crdt.Std.Set
use did_crdt.Std.Set.{IsAscending, Above}
use did_crdt.Std.Sort.{sort, put}
use did_crdt.Error.{◌>>=◌, ok, Error, Result-cases, delta_rejected, err}
use did_crdt.Delta.{DeltaHash, SignedDelta, Payload}
use did_crdt.Dag.{new, DeltaDag, contains, get}
use did_crdt.Dag.Insert.{new-IsValid, IsValid}
use did_crdt.Recon.{
  ClosureBundle, extract_closure, push_new, push_heads, hashes_of, deltas_for_peer,
}
use did_crdt.Recon.Converge.{IsRooted, deltas_for_peer_complete}
use did_crdt.Recon.Extract.{IsKeyed}
use did_crdt.Recon.Merge.{IsClosed}
use did_crdt.Document.{Crates, Document}
use did_crdt.Document.Export.{
  bundle_for, greatest, last, push_closures, export_bundle, closure_bundle,
}

-- An ascending list is sorted, and its last element is its greatest.
put_first : (h : DeltaHash) (hs : List DeltaHash) → Above h hs → put h hs ≡ h ∷ hs
unfolding put
put_first h [] a = refl
put_first h (k ∷ hs) a = ground (arith, a.0, text_ord.gt_of_lt h k a.0)

sort_ascending : (hs : List DeltaHash) → IsAscending hs → sort hs ≡ hs
unfolding sort
sort_ascending [] a = refl
sort_ascending (h ∷ hs) a = ap (put h) (sort_ascending hs a.1) ∙ put_first h hs a.0

greatest_above : (h m : DeltaHash) (hs : List DeltaHash) → Above h hs → greatest hs ≡ some m → h ≺ m
unfolding greatest
greatest_above h m [] a e = cc
greatest_above h m (k ∷ hs) a e = elim (Option-cases (greatest hs)) [
  | inl q ↦ ground (arith, a.0, e, q)
  | inr (x, q) ↦ ground (arith, a.0, e, q, greatest_above h x hs a.1 q)
]

last_greatest : (hs : List DeltaHash) → IsAscending hs → last hs ≡ greatest hs
unfolding last greatest
last_greatest [] a = refl
last_greatest (h ∷ []) a = refl
last_greatest (h ∷ k ∷ hs) a =
    last_greatest (k ∷ hs) a.1 ∙ (elim (Option-cases (greatest (k ∷ hs))) [
      | inl q ↦ absurd (ground (arith, q))
      | inr (m, q) ↦ ground (arith, q, text_ord.gt_of_lt h m (greatest_above h m (k ∷ hs) a.0 q))
    ])

none_in : (h : DeltaHash) → Set.contains [] h ≡ false
unfolding Set.contains
none_in h = refl

module _ {V : Type 0} (digest : Payload V → DeltaHash) (g : DeltaDag V) where
  closures-err :
      (head : DeltaHash) (heads seen : List DeltaHash) (out : List (SignedDelta V)) (e : Error)
      → extract_closure g head [] ≡ err e
      → push_closures digest g (head ∷ heads) seen out ≡ err e
  unfolding push_closures
  closures-err head heads seen out e q = rw (q, push_closures) refl

  heads-err :
      (head : DeltaHash) (heads seen : List DeltaHash) (out : List (SignedDelta V)) (e : Error)
      → extract_closure g head [] ≡ err e
      → push_heads digest g [] (head ∷ heads) seen out ≡ err e
  unfolding push_heads
  heads-err head heads seen out e q = rw (none_in head, q, push_heads) refl

  module _ (head : DeltaHash) (heads seen : List DeltaHash) (out : List (SignedDelta V))
      (b : ClosureBundle V) (q : extract_closure g head [] ≡ ok b) where
    abbrev pushed : List DeltaHash × List (SignedDelta V)
    pushed = push_new digest b.deltas seen out

    closures-ok :
        push_closures digest g (head ∷ heads) seen out
        ≡ push_closures digest g heads pushed.0 pushed.1
    unfolding push_closures
    closures-ok = rw (q, push_closures) refl

    heads-ok :
        push_heads digest g [] (head ∷ heads) seen out
        ≡ push_heads digest g [] heads pushed.0 pushed.1
    unfolding push_heads
    heads-ok = rw (none_in head, q, push_heads) refl

  push_closures-push_heads :
      (heads seen : List DeltaHash) (out : List (SignedDelta V))
      → push_closures digest g heads seen out ≡ push_heads digest g [] heads seen out
  unfolding push_closures push_heads
  push_closures-push_heads [] seen out = refl
  push_closures-push_heads (head ∷ heads) seen out =
      elim (Result-cases (extract_closure g head [])) [
        | inl (e, q) ↦
            closures-err head heads seen out e q ∙ sym (heads-err head heads seen out e q)
        | inr (b, q) ↦
            let p = push_new digest b.deltas seen out in
            closures-ok head heads seen out b q
            ∙ push_closures-push_heads heads p.0 p.1
            ∙ sym (heads-ok head heads seen out b q)
      ]

  -- For a peer that holds nothing.
  whole :
      IsValid g
      → IsClosed g
      → IsKeyed digest g
      → IsRooted g
      → (ds : List (SignedDelta V)) × (push_closures digest g g.frontier [] [] ≡ ok ds)
        × ((h : DeltaHash) → Set.contains (hashes_of digest ds) h ≡ contains g h)
  unfolding new contains get Map.get Set.contains deltas_for_peer
  whole v c k r =
      let (ds, q, same) =
        deltas_for_peer_complete digest g new v c k r new-IsValid (λ h d p e m. cc)
          (λ h d e f i. cc) in
      (ds, push_closures-push_heads g.frontier [] [] ∙ q, same)

greatest_or_none :
    (hs : List DeltaHash)
    → ((hs ≡ []) × (greatest hs ≡ none)) ⊎ ((t : DeltaHash) × (greatest hs ≡ some t))
unfolding greatest
greatest_or_none [] = inl (refl, refl)
greatest_or_none (h ∷ hs) = elim (Option-cases (greatest hs)) [
  | inl q ↦ inr (h, ground (arith, q))
  | inr (m, q) ↦ inr (if lt? m h then h else m, ground (arith, q))
]

greatest_in :
    (hs : List DeltaHash) (t : DeltaHash) → greatest hs ≡ some t → Set.contains hs t ≡ true
unfolding greatest Set.contains
greatest_in [] t e = cc
greatest_in (h ∷ hs) t e = elim (Option-cases (greatest hs)) [
  | inl q ↦ ground (arith, e, q, text_ord.cmp_refl h)
  | inr (m, q) ↦ ground (arith, e, q, greatest_in hs m q, text_ord.cmp_refl h)
]

module _ {V : Type 0} (c : Crates V) where
  -- For a document whose store is valid, holds the parents of what it holds, has each delta under
  -- its own hash and everything below its frontier, `closure_bundle` returns what `export_bundle`
  -- does: an error if the frontier is empty, or else a bundle that carries exactly the hashes that
  -- are held, and whose target is in the frontier.
  pub export_bundle_lem :
      (doc : Document c)
      → IsValid doc.dag
      → IsClosed doc.dag
      → IsKeyed c.digest doc.dag
      → IsRooted doc.dag
      → (closure_bundle c doc ≡ export_bundle c doc)
        × (((doc.dag.frontier ≡ []) × (export_bundle c doc ≡ err delta_rejected))
            ⊎ ((b : ClosureBundle V) × (export_bundle c doc ≡ ok b)
                × (Set.contains doc.dag.frontier b.target ≡ true)
                × ((h : DeltaHash)
                    → Set.contains (hashes_of c.digest b.deltas) h ≡ contains doc.dag h)))
  unfolding export_bundle closure_bundle
  export_bundle_lem doc v cl k r =
      let g = doc.dag in
      (
        ap (λ hs. bundle_for c.digest g (last hs) hs) (sort_ascending g.frontier v.frontier_ordered)
            ∙ ap (λ t. bundle_for c.digest g t g.frontier)
                (last_greatest g.frontier v.frontier_ordered),
        elim (greatest_or_none g.frontier) [
          | inl (e, q) ↦ inl (e, ap (λ t. bundle_for c.digest g t g.frontier) q)
          | inr (t, q) ↦
              let (ds, p, held) = whole c.digest g v cl k r in
              inr (
                record { target = t; deltas = ds },
                ap (λ t. bundle_for c.digest g t g.frontier) q
                    ∙ ap (λ r. r >>= λ deltas. ok (record { target = t; deltas = deltas })) p,
                greatest_in g.frontier t q,
                held,
              )
        ],
      )
