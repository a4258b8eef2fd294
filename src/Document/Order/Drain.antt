-- ===== src/Document/Order/Drain.antt =====
-- src/core/document.rs, `topo_order_bundle`: the loop over the hashes that are ready.
use did_crdt.Base.{
  refl, some, ℕ, zero, suc, ◌+◌, ◌≤◌, ◌≡◌, sym, ◌∙◌, true, false, ◌&&◌, ◌||◌, List, [], ◌∷◌, ◌++◌,
  reverse, length, length-append, ◌==◌, if◌then◌else◌, arith,
}
use did_crdt.Ord.{nat_ord}
use did_crdt.Ord.Text.{list_ord, text_ord}
use did_crdt.Std.Count.{
  count, count-append, count-sort, count-reverse, contains-count, length_le, count-keys,
  length-keys,
}
use did_crdt.Std.Map.{Map, contains_key, keys, IsOrdered}
use did_crdt.Std.Set
use did_crdt.Std.Set.Laws.{contains-append}
use did_crdt.Std.Sort.{sort}
use did_crdt.Delta.{DeltaHash, SignedDelta}
use did_crdt.Document.Order.{listed, drain}
use did_crdt.Document.Order.Degrees.{parents_of, weight}
use did_crdt.Document.Order.Lowering.{number-lower, count-lower, weight_done, weight_zero}
use did_crdt.Document.Order.Steps.{number, lower}
use did_crdt.Document.Order.Total.{release-lower}

module _ {V : Type 0} (b : Map DeltaHash (SignedDelta V)) where
  -- Each hash of the list comes after its parents that are in the map, or these are among `placed`.
  abbrev pub InOrder : List DeltaHash → List DeltaHash → Type 0
  InOrder placed [] = Unit
  InOrder placed (h ∷ hs) =
      ((p : DeltaHash)
        → Set.contains (parents_of b h) p ≡ true
        → contains_key b p ≡ true
        → Set.contains placed p ≡ true)
      × InOrder (placed ++ h ∷ []) hs

  InOrder-append :
      (placed hs : List DeltaHash) (h : DeltaHash)
      → InOrder placed hs
      → ((p : DeltaHash)
          → Set.contains (parents_of b h) p ≡ true
          → contains_key b p ≡ true
          → (Set.contains placed p || Set.contains hs p) ≡ true)
      → InOrder placed (hs ++ h ∷ [])
  unfolding Set.contains
  InOrder-append placed [] h i k = (λ p m n. ground (arith, k p m n), tt)
  InOrder-append placed (x ∷ hs) h i k = (
    i.0,
    InOrder-append (placed ++ x ∷ []) hs h i.1
        (λ p m n. ground (arith, k p m n, contains-append placed (x ∷ []) p)),
  )

  -- The loop keeps the in-degrees at the number of parents in the map that are not yet placed, and
  -- each hash of in-degree 0 is ready or placed, once.
  pub record Inv (indeg : Map DeltaHash ℕ) (ready order : List DeltaHash) : Type 0 where
    pub degree : (x : DeltaHash) → number indeg x ≡ weight b order (parents_of b x)
    pub places :
        (x : DeltaHash)
        → count x ready + count x order ≡ (if contains_key b x && number indeg x == 0 then 1 else 0)
    pub in_order : InOrder [] order

  -- What is placed is in the map, each hash once, so there is room for it.
  pub placed_few :
      (indeg : Map DeltaHash ℕ) (ready order : List DeltaHash)
      → IsOrdered b
      → Inv indeg ready order
      → (x : DeltaHash) → count x order ≤ count x (keys b)
  placed_few indeg ready order s v x = ground (arith, v.places x, count-keys x b s)

  placed_le :
      (indeg : Map DeltaHash ℕ) (ready order : List DeltaHash)
      → IsOrdered b
      → Inv indeg ready order
      → length order ≤ length b
  placed_le indeg ready order s v =
      ground (arith, length_le order (keys b) (placed_few indeg ready order s v), length-keys b)

  module _ (children : Map DeltaHash (List DeltaHash))
      (kids : (p c : DeltaHash)
        → contains_key b p ≡ true
        → count c (listed children p) ≡ count p (parents_of b c)) where
    module _ (indeg : Map DeltaHash ℕ) (h : DeltaHash) (ready order : List DeltaHash)
        (v : Inv indeg (h ∷ ready) order) where
      popped : (contains_key b h ≡ true) × (number indeg h ≡ 0) × (count h order ≡ 0)
      unfolding count
      popped = ground (arith, v.places h, text_ord.cmp_refl h)

      absent : Set.contains order h ≡ false
      absent = ground (arith, popped, contains-count h order)

      abbrev after : Map DeltaHash ℕ × List DeltaHash
      after = lower (listed children h) indeg []

      degree_after :
          (x : DeltaHash) → number after.0 x ≡ weight b (order ++ h ∷ []) (parents_of b x)
      degree_after x = ground (
        arith,
        number-lower (listed children h) indeg [] x,
        kids h x popped.0,
        v.degree x,
        weight_done b order h (parents_of b x) popped.0 absent,
      )

      few : (x : DeltaHash) → count x (listed children h) ≤ number indeg x
      few x = ground (
        arith,
        kids h x popped.0,
        v.degree x,
        weight_done b order h (parents_of b x) popped.0 absent,
      )

      childless : (x : DeltaHash) → contains_key b x ≡ false → count x (listed children h) ≡ 0
      unfolding count
      childless x k = ground (arith, k, kids h x popped.0)

      places_after :
          (x : DeltaHash)
          → count x (reverse (sort after.1) ++ ready) + count x (order ++ h ∷ [])
            ≡ (if contains_key b x && number after.0 x == 0 then 1 else 0)
      unfolding count
      places_after x = ground (
        arith,
        v.places x,
        count-append x (reverse (sort after.1)) ready,
        count-append x order (h ∷ []),
        count-reverse x (sort after.1),
        count-sort x after.1,
        count-lower (listed children h) indeg [] x (few x),
        number-lower (listed children h) indeg [] x,
        few x,
        childless x,
        popped,
        text_ord.eq_of_cmp x h,
      )

      Inv-step : Inv after.0 (reverse (sort after.1) ++ ready) (order ++ h ∷ [])
      Inv-step = record {
        degree = degree_after;
        places = places_after;
        in_order = InOrder-append [] order h v.in_order (λ p m k.
            ground
              (arith, weight_zero b order (parents_of b h) p (sym (v.degree h) ∙ popped.1) m k));
      }

    -- With enough fuel the loop ends with nothing ready, and without a panic.
    pub drain_lem :
        (fuel : ℕ) (indeg : Map DeltaHash ℕ) (ready order : List DeltaHash)
        → IsOrdered b
        → Inv indeg ready order
        → length order + fuel ≡ suc (length b)
        → (indeg' : Map DeltaHash ℕ) × (order' : List DeltaHash) × (drain fuel indeg children ready
              order
            ≡ some order')
          × Inv indeg' [] order'
    unfolding drain
    drain_lem zero indeg ready order s v e =
        absurd (ground (arith, e, placed_le indeg ready order s v))
    drain_lem (suc fuel) indeg [] order s v e = (indeg, order, refl, v)
    drain_lem (suc fuel) indeg (h ∷ ready) order s v e =
        let r = after indeg h ready order v in
        let (indeg', order', q, v') =
          drain_lem fuel r.0 (reverse (sort r.1) ++ ready) (order ++ h ∷ []) s
            (Inv-step indeg h ready order v) (omega (arith, e, length-append order (h ∷ []))) in
        (
          indeg',
          order',
          rw (release-lower (listed children h) indeg [] (few indeg h ready order v), drain) q,
          v',
        )
