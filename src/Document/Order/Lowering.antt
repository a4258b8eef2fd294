-- ===== src/Document/Order/Lowering.antt =====
-- src/core/document.rs, `topo_order_bundle`: what the in-degrees count once a hash is done.
use did_crdt.Base.{
  inl, inr, ◌≢◌, Bool-cases, ℕ, ◌+◌, ◌-◌, ◌≤◌, ◌≡◌, refl, true, false, not, ◌&&◌, List, [], ◌∷◌,
  ◌++◌, ◌==◌, if◌then◌else◌, arith,
}
use did_crdt.Ord.{nat_ord}
use did_crdt.Ord.Text.{list_ord, text_ord}
use did_crdt.Std.Count.{count, count-append}
use did_crdt.Std.Map
use did_crdt.Std.Map.{Map, contains_key, keys, IsOrdered}
use did_crdt.Std.Map.Laws.{get-insert}
use did_crdt.Std.Set
use did_crdt.Std.Set.Laws.{contains-append, contains_head, contains_tail}
use did_crdt.Delta.{DeltaHash, SignedDelta}
use did_crdt.Document.Order.Degrees.{weight}
use did_crdt.Document.Order.Steps.{number, lower}

pub number-lower :
    (cs : List DeltaHash) (indeg : Map DeltaHash ℕ) (unlocked : List DeltaHash) (x : DeltaHash)
    → number (lower cs indeg unlocked).0 x ≡ number indeg x - count x cs
unfolding lower count
number-lower [] indeg unlocked x = ground arith
number-lower (c ∷ cs) indeg unlocked x =
    let n = number indeg c - 1 in
    ground (
      arith,
      number-lower cs (Map.insert c n indeg) unlocked x,
      number-lower cs (Map.insert c n indeg) (unlocked ++ c ∷ []) x,
      get-insert c n x indeg,
      text_ord.eq_of_cmp x c,
    )

pub count-lower :
    (cs : List DeltaHash) (indeg : Map DeltaHash ℕ) (unlocked : List DeltaHash) (x : DeltaHash)
    → count x cs ≤ number indeg x
    → count x (lower cs indeg unlocked).1
      ≡ count x unlocked + (if not (count x cs == 0) && number indeg x == count x cs then 1 else 0)
unfolding lower count
count-lower [] indeg unlocked x h = ground arith
count-lower (c ∷ cs) indeg unlocked x h =
    let n = number indeg c - 1 in
    ground (
      arith,
      h,
      count-lower cs (Map.insert c n indeg) unlocked x,
      count-lower cs (Map.insert c n indeg) (unlocked ++ c ∷ []) x,
      count-append x unlocked (c ∷ []),
      get-insert c n x indeg,
      text_ord.eq_of_cmp x c,
      text_ord.cmp_refl c,
    )

module _ {V : Type 0} (b : Map DeltaHash (SignedDelta V)) where
  -- One more hash that is done takes as much off the weight as it stands among the parents.
  pub weight_done :
      (done : List DeltaHash) (h : DeltaHash) (ps : List DeltaHash)
      → contains_key b h ≡ true
      → Set.contains done h ≡ false
      → weight b done ps ≡ weight b (done ++ h ∷ []) ps + count h ps
  unfolding weight count Set.contains
  weight_done done h [] k n = ground arith
  weight_done done h (p ∷ ps) k n = ground (
    arith,
    k,
    n,
    weight_done done h ps k n,
    contains-append done (h ∷ []) p,
    text_ord.eq_of_cmp p h,
    text_ord.eq_of_cmp h p,
    text_ord.cmp_refl h,
  )

  -- A weight of 0: all that is in the map is done.
  pub weight_zero :
      (done ps : List DeltaHash) (p : DeltaHash)
      → weight b done ps ≡ 0
      → Set.contains ps p ≡ true
      → contains_key b p ≡ true
      → Set.contains done p ≡ true
  unfolding weight Set.contains
  weight_zero done [] p w m k = cc
  weight_zero done (q ∷ ps) p w m k =
      ground (arith, w, m, k, weight_zero done ps p, text_ord.eq_of_cmp p q)

  -- Any other weight: some parent in the map is not done.
  pub weight_positive :
      (done ps : List DeltaHash)
      → weight b done ps ≢ 0
      → (p : DeltaHash) × (Set.contains ps p ≡ true)
        × (contains_key b p ≡ true)
        × (Set.contains done p ≡ false)
  unfolding weight Set.contains
  weight_positive done [] w = absurd (w refl)
  weight_positive done (q ∷ ps) w =
      elim (Bool-cases (contains_key b q && not (Set.contains done q))) [
        | inl e ↦ (q, contains_head q ps, ground (arith, e), ground (arith, e))
        | inr e ↦
            let (p, m, k, n) = weight_positive done ps (λ z. w (ground (arith, e, z))) in
            (p, contains_tail p q ps m, k, n)
      ]
