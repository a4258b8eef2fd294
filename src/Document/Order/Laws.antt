-- ===== src/Document/Order/Laws.antt =====
-- src/core/document.rs, `topo_order_bundle`: the order that it finds, and why it finds none.
use did_crdt.Base.{
  some, ℕ, suc, ◌≤◌, ◌≡◌, ◌≢◌, sym, ◌∙◌, subst, Bool, true, false, not, ◌&&◌, List, [], ◌∷◌,
  reverse, length, ◌==◌, if◌then◌else◌, arith, ◌⊎◌, inl, inr, Bool-cases,
}
use did_crdt.Ord.{nat_ord}
use did_crdt.Ord.Text.{list_ord, text_ord}
use did_crdt.Std.Count.{
  count, count-sort, count-reverse, contains-count, length_le, count-keys, length-keys,
  count-eq_of_length,
}
use did_crdt.Std.Map
use did_crdt.Std.Map.{Map, contains_key, keys, IsOrdered}
use did_crdt.Std.Set
use did_crdt.Std.Sort.{sort}
use did_crdt.Error.{delta_rejected, ok, err}
use did_crdt.Delta.{DeltaHash, SignedDelta}
use did_crdt.Document.Order.{listed, Edges, zero_degrees, roots, topo_order_bundle}
use did_crdt.Document.Order.Degrees.{
  parents_of, count-roots, number-attach_all, count-attach_all, number-zero_degrees,
  contains_key-zero_degrees, keys-zero_degrees, attach_all-IsOrdered, contains_key-attach_all,
}
use did_crdt.Document.Order.Drain.{InOrder, Inv, drain_lem, placed_few}
use did_crdt.Document.Order.Lowering.{weight_positive}
use did_crdt.Document.Order.Steps.{attach_all}
use did_crdt.Document.Order.Total.{link_all-attach_all}

-- Some key that is not placed, if there are fewer placed than keys.
left_over :
    (hs order : List DeltaHash)
    → ((x : DeltaHash) × (Set.contains hs x ≡ true) × (Set.contains order x ≡ false))
      ⊎ ((x : DeltaHash) → Set.contains hs x ≡ true → Set.contains order x ≡ true)
unfolding Set.contains
left_over [] order = inr (λ x m. cc)
left_over (h ∷ hs) order = elim (Bool-cases (Set.contains order h)) [
  | inr e ↦ inl (h, ground (arith, text_ord.cmp_refl h), e)
  | inl e ↦ elim (left_over hs order) [
    | inl (x, m, n) ↦ inl (x, ground (arith, m), n)
    | inr every ↦ inr (λ x m. ground (arith, m, every x, e, text_ord.eq_of_cmp x h))
  ]
]

module _ {V : Type 0} (b : Map DeltaHash (SignedDelta V)) (s : IsOrdered b) where
  abbrev start : Edges
  start = attach_all b b (record { indeg = zero_degrees b; children = [] })

  start-IsOrdered : IsOrdered start.indeg
  start-IsOrdered =
      attach_all-IsOrdered b b (record { indeg = zero_degrees b; children = [] })
        (subst Set.IsAscending (sym (keys-zero_degrees b)) s)

  kids :
      (p c : DeltaHash)
      → contains_key b p ≡ true
      → count c (listed start.children p) ≡ count p (parents_of b c)
  unfolding Map.get count
  kids p c k =
      ground
        (arith, count-attach_all b b (record { indeg = zero_degrees b; children = [] }) p c s k)

  known : (x : DeltaHash) → contains_key start.indeg x ≡ contains_key b x
  known x =
      contains_key-attach_all b b (record { indeg = zero_degrees b; children = [] }) x
        (λ y k. contains_key-zero_degrees b y ∙ k) s
      ∙ contains_key-zero_degrees b x

  Inv-start : Inv b start.indeg (reverse (sort (roots start.indeg))) []
  unfolding count
  Inv-start = record {
    degree = λ x. ground (
      arith,
      number-attach_all b b (record { indeg = zero_degrees b; children = [] }) x s,
      number-zero_degrees b x,
    );
    places = λ x. ground (
      arith,
      count-reverse x (sort (roots start.indeg)),
      count-sort x (roots start.indeg),
      count-roots start.indeg x start-IsOrdered,
      known x,
    );
    in_order = tt;
  }

  -- Some deltas of the bundle that each have a parent among them.
  abbrev pub IsCyclic : Type 0
  IsCyclic =
      (stuck : DeltaHash → Bool) × ((x : DeltaHash) × (stuck x ≡ true))
      × ((y : DeltaHash)
          → stuck y ≡ true
          → (contains_key b y ≡ true)
            × ((p : DeltaHash) × (Set.contains (parents_of b y) p ≡ true) × (stuck p ≡ true)))

  module _ (indeg : Map DeltaHash ℕ) (order : List DeltaHash) (v : Inv b indeg [] order) where
    all_placed :
        length order ≡ length b
        → (x : DeltaHash) → count x order ≡ (if contains_key b x then 1 else 0)
    all_placed e x =
        count-eq_of_length order (keys b) (placed_few b indeg [] order s v)
          (e ∙ sym (length-keys b)) x
        ∙ count-keys x b s

    abbrev is_stuck : DeltaHash → Bool
    is_stuck y = contains_key b y && not (Set.contains order y)

    stuck_parent :
        (y : DeltaHash)
        → is_stuck y ≡ true
        → (p : DeltaHash) × (Set.contains (parents_of b y) p ≡ true) × (is_stuck p ≡ true)
    unfolding count
    stuck_parent y e =
        let (p, m, k, n) =
          weight_positive b order (parents_of b y)
            (λ z. ground (arith, e, z, v.degree y, v.places y, contains-count y order)) in
        (p, m, ground (arith, k, n))

    too_few :
        ((x : DeltaHash) → Set.contains (keys b) x ≡ true → Set.contains order x ≡ true)
        → length order ≡ length b
    too_few every =
        let few : length order ≤ length (keys b) =
          length_le order (keys b) (placed_few b indeg [] order s v) in
        let many : length (keys b) ≤ length order = length_le (keys b) order (λ x.
          ground (
            arith,
            every x,
            count-keys x b s,
            contains-count x (keys b),
            contains-count x order,
          )) in
        omega (arith, few, many, length-keys b)

    some_stuck : length order ≢ length b → (x : DeltaHash) × (is_stuck x ≡ true)
    some_stuck n = elim (left_over (keys b) order) [
      | inl (x, m, a) ↦ (x, ground (arith, m, a, count-keys x b s, contains-count x (keys b)))
      | inr every ↦ absurd (n (too_few every))
    ]

  -- For an ordered map of deltas, `topo_order_bundle` does not panic: it returns an order that
  -- holds the hash of each of them once and no other, each after those of its parents that are in
  -- the map; or it returns an error and some of the deltas each have a parent among them.
  pub topo_order_bundle_lem :
      ((order : List DeltaHash) × (topo_order_bundle b ≡ some (ok order))
        × InOrder b [] order
        × ((x : DeltaHash) → count x order ≡ (if contains_key b x then 1 else 0)))
      ⊎ ((topo_order_bundle b ≡ some (err delta_rejected)) × IsCyclic)
  unfolding topo_order_bundle
  topo_order_bundle_lem =
      let linked =
        link_all-attach_all b b (record { indeg = zero_degrees b; children = [] })
          (λ y k. contains_key-zero_degrees b y ∙ k) in
      let (indeg, order, q, v) =
        drain_lem b start.children kids (suc (length b)) start.indeg
          (reverse (sort (roots start.indeg))) [] s Inv-start (omega arith) in
      elim (Bool-cases (length order == length b)) [
        | inl e ↦ inl (
          order,
          rw (linked, q, e, topo_order_bundle),
          v.in_order,
          all_placed indeg order v (ground (arith, e)),
        )
        | inr e ↦ inr (
          rw (linked, q, e, topo_order_bundle),
          (
            is_stuck indeg order v,
            some_stuck indeg order v (λ z. ground (arith, e, z)),
            λ y m. (ground (arith, m), stuck_parent indeg order v y m),
          ),
        )
      ]
