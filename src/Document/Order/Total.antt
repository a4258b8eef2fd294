-- ===== src/Document/Order/Total.antt =====
-- src/core/document.rs, `topo_order_bundle`: where no look-up of its loops fails.
use did_crdt.Base.{
  inl, inr, Option-cases, ℕ, zero, suc, ◌+◌, ◌-◌, ◌≤◌, ◌≡◌, ap, ◌∙◌, refl, true, List, [], ◌∷◌,
  ◌++◌, some, ◌==◌, if◌then◌else◌, arith,
}
use did_crdt.Ord.{nat_ord}
use did_crdt.Ord.Text.{list_ord, text_ord}
use did_crdt.Std.Count.{count}
use did_crdt.Std.Map
use did_crdt.Std.Map.{Map, contains_key}
use did_crdt.Std.Map.Laws.{get-insert}
use did_crdt.Delta.{DeltaHash, SignedDelta}
use did_crdt.Document.Order.{Edges, link, link_all, release, decrement}
use did_crdt.Document.Order.Degrees.{add_edge, contains_key-attach}
use did_crdt.Document.Order.Steps.{number, attach, attach_all, lower}

module _ {V : Type 0} (b : Map DeltaHash (SignedDelta V)) where
  link-attach :
      (h : DeltaHash) (ps : List DeltaHash) (e : Edges)
      → contains_key e.indeg h ≡ true
      → link b h ps e ≡ some (attach b h ps e)
  unfolding link attach
  link-attach h [] e k = refl
  link-attach h (p ∷ ps) e k = ground (
    arith,
    k,
    link-attach h ps e k,
    link-attach h ps (add_edge h p e),
    get-insert h (number e.indeg h + 1) h e.indeg,
    text_ord.cmp_refl h,
  )

  pub link_all-attach_all :
      (m : Map DeltaHash (SignedDelta V)) (e : Edges)
      → ((y : DeltaHash) → contains_key m y ≡ true → contains_key e.indeg y ≡ true)
      → link_all b m e ≡ some (attach_all b m e)
  unfolding link_all attach_all Map.get
  link_all-attach_all [] e k = refl
  link_all-attach_all ((h, d) ∷ m) e k =
      let here : contains_key e.indeg h ≡ true = ground (arith, k h, text_ord.cmp_refl h) in
      rw (link-attach h d.parents e here, link_all)
        (link_all-attach_all m (attach b h d.parents e) (λ y i.
          contains_key-attach b h d.parents e y here
          ∙ ground (arith, i, k y, text_ord.eq_of_cmp y h)))

decrement-get :
    (indeg : Map DeltaHash ℕ) (c : DeltaHash)
    → 1 ≤ number indeg c
    → decrement (Map.get indeg c) ≡ some (number indeg c - 1)
unfolding decrement
decrement-get indeg c h = elim (Option-cases (Map.get indeg c)) [
  | inl e ↦ absurd (ground (arith, e, h))
  | inr (zero, e) ↦ absurd (ground (arith, e, h))
  | inr (suc n, e) ↦ rw (e, decrement) (ap some (ground (arith, e)))
]

-- Where each hash is counted at least as often as it is listed, none is missing and none is 0.
pub release-lower :
    (cs : List DeltaHash) (indeg : Map DeltaHash ℕ) (unlocked : List DeltaHash)
    → ((x : DeltaHash) → count x cs ≤ number indeg x)
    → release cs indeg unlocked ≡ some (lower cs indeg unlocked)
unfolding release lower count
release-lower [] indeg unlocked h = refl
release-lower (c ∷ cs) indeg unlocked h =
    let n = number indeg c - 1 in
    rw (
      decrement-get indeg c (ground (arith, h c, text_ord.cmp_refl c)),
      release,
      release-lower cs (Map.insert c n indeg) (if n == 0 then unlocked ++ c ∷ [] else unlocked)
          (λ x.
            ground
              (arith, h x, get-insert c n x indeg, text_ord.eq_of_cmp x c, text_ord.cmp_refl c)),
    )
