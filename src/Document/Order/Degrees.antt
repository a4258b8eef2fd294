-- ===== src/Document/Order/Degrees.antt =====
-- src/core/document.rs, `topo_order_bundle`: what the in-degrees and the lists of children count.
use did_crdt.Base.{
  ℕ, suc, ◌+◌, ◌≡◌, ap, ◌∙◌, refl, Bool, true, false, not, ◌&&◌, List, [], ◌∷◌, ◌++◌, none, some,
  ◌==◌, if◌then◌else◌, arith,
}
use did_crdt.Ord.{nat_ord, eq?}
use did_crdt.Ord.Text.{list_ord, text_ord}
use did_crdt.Std.Count.{count, count-append}
use did_crdt.Std.Map
use did_crdt.Std.Map.{Map, contains_key, keys, IsOrdered}
use did_crdt.Std.Map.Laws.{get-insert, insert-IsOrdered, get_below}
use did_crdt.Std.Set
use did_crdt.Delta.{DeltaHash, SignedDelta}
use did_crdt.Document.Order.{listed, Edges, zero_degrees, roots}
use did_crdt.Document.Order.Steps.{number, attach, attach_all}

module _ {V : Type 0} where
  -- The parents of a delta in a map, none for a hash that is not there.
  abbrev pub parents_of : Map DeltaHash (SignedDelta V) → DeltaHash → List DeltaHash
  parents_of m h = elim (Map.get m h) [ none ↦ [] | some d ↦ d.parents ]

  -- How many of `ps` are in the map and not in `done`.
  unfoldable pub weight : Map DeltaHash (SignedDelta V) → List DeltaHash → List DeltaHash → ℕ
  weight b done [] = 0
  weight b done (p ∷ ps) =
      if contains_key b p && not (Set.contains done p)
      then suc (weight b done ps)
      else weight b done ps

  pub number-zero_degrees :
      (m : Map DeltaHash (SignedDelta V)) (x : DeltaHash) → number (zero_degrees m) x ≡ 0
  unfolding zero_degrees Map.get
  number-zero_degrees [] x = refl
  number-zero_degrees ((h, d) ∷ m) x = ground (arith, number-zero_degrees m x)

  pub contains_key-zero_degrees :
      (m : Map DeltaHash (SignedDelta V)) (x : DeltaHash)
      → contains_key (zero_degrees m) x ≡ contains_key m x
  unfolding zero_degrees Map.get
  contains_key-zero_degrees [] x = refl
  contains_key-zero_degrees ((h, d) ∷ m) x = ground (arith, contains_key-zero_degrees m x)

  pub keys-zero_degrees : (m : Map DeltaHash (SignedDelta V)) → keys (zero_degrees m) ≡ keys m
  unfolding zero_degrees
  keys-zero_degrees [] = refl
  keys-zero_degrees ((h, d) ∷ m) = ap (λ l. h ∷ l) (keys-zero_degrees m)

-- The edge from `p` to its child `h`.
abbrev pub add_edge : DeltaHash → DeltaHash → Edges → Edges
add_edge h p e = record {
  indeg = Map.insert h (number e.indeg h + 1) e.indeg;
  children = Map.insert p (listed e.children p ++ h ∷ []) e.children;
}

either-IsOrdered :
    (c : Bool) (x y : Edges)
    → IsOrdered x.indeg
    → IsOrdered y.indeg
    → IsOrdered (if c then x else y).indeg
either-IsOrdered true x y s t = s
either-IsOrdered false x y s t = t

module _ {V : Type 0} (b : Map DeltaHash (SignedDelta V)) where
  number-attach :
      (h : DeltaHash) (ps : List DeltaHash) (e : Edges) (x : DeltaHash)
      → number (attach b h ps e).indeg x
        ≡ number e.indeg x + (if eq? x h then weight b [] ps else 0)
  unfolding attach weight Set.contains
  number-attach h [] e x = ground arith
  number-attach h (p ∷ ps) e x = ground (
    arith,
    number-attach h ps e x,
    number-attach h ps (add_edge h p e) x,
    get-insert h (number e.indeg h + 1) x e.indeg,
    text_ord.eq_of_cmp x h,
  )

  count-attach :
      (h : DeltaHash) (ps : List DeltaHash) (e : Edges) (p c : DeltaHash)
      → contains_key b p ≡ true
      → count c (listed (attach b h ps e).children p)
        ≡ count c (listed e.children p) + (if eq? c h then count p ps else 0)
  unfolding attach count
  count-attach h [] e p c k = ground arith
  count-attach h (q ∷ ps) e p c k = ground (
    arith,
    k,
    count-attach h ps e p c k,
    count-attach h ps (add_edge h q e) p c k,
    get-insert q (listed e.children q ++ h ∷ []) p e.children,
    count-append c (listed e.children q) (h ∷ []),
    text_ord.eq_of_cmp p q,
    text_ord.cmp_refl p,
  )

  pub number-attach_all :
      (m : Map DeltaHash (SignedDelta V)) (e : Edges) (x : DeltaHash)
      → IsOrdered m
      → number (attach_all b m e).indeg x ≡ number e.indeg x + weight b [] (parents_of m x)
  unfolding attach_all Map.get weight
  number-attach_all [] e x s = ground arith
  number-attach_all ((h, d) ∷ m) e x s = ground (
    arith,
    number-attach_all m (attach b h d.parents e) x s.1,
    number-attach h d.parents e x,
    get_below h m s.0,
    text_ord.eq_of_cmp x h,
  )

  pub count-attach_all :
      (m : Map DeltaHash (SignedDelta V)) (e : Edges) (p c : DeltaHash)
      → IsOrdered m
      → contains_key b p ≡ true
      → count c (listed (attach_all b m e).children p)
        ≡ count c (listed e.children p) + count p (parents_of m c)
  unfolding attach_all Map.get count
  count-attach_all [] e p c s k = ground arith
  count-attach_all ((h, d) ∷ m) e p c s k = ground (
    arith,
    count-attach_all m (attach b h d.parents e) p c s.1 k,
    count-attach h d.parents e p c k,
    get_below h m s.0,
    text_ord.eq_of_cmp c h,
  )

  attach-IsOrdered :
      (h : DeltaHash) (ps : List DeltaHash) (e : Edges)
      → IsOrdered e.indeg
      → IsOrdered (attach b h ps e).indeg
  unfolding attach
  attach-IsOrdered h [] e s = s
  attach-IsOrdered h (p ∷ ps) e s =
      attach-IsOrdered h ps (if contains_key b p then add_edge h p e else e) (
        either-IsOrdered (contains_key b p) (add_edge h p e) e
          (insert-IsOrdered h (number e.indeg h + 1) e.indeg s) s)

  pub contains_key-attach :
      (h : DeltaHash) (ps : List DeltaHash) (e : Edges) (x : DeltaHash)
      → contains_key e.indeg h ≡ true
      → contains_key (attach b h ps e).indeg x ≡ contains_key e.indeg x
  unfolding attach
  contains_key-attach h [] e x k = refl
  contains_key-attach h (p ∷ ps) e x k = ground (
    arith,
    k,
    contains_key-attach h ps e x k,
    contains_key-attach h ps (add_edge h p e) x,
    get-insert h (number e.indeg h + 1) x e.indeg,
    get-insert h (number e.indeg h + 1) h e.indeg,
    text_ord.eq_of_cmp x h,
    text_ord.cmp_refl h,
  )

  pub attach_all-IsOrdered :
      (m : Map DeltaHash (SignedDelta V)) (e : Edges)
      → IsOrdered e.indeg
      → IsOrdered (attach_all b m e).indeg
  unfolding attach_all
  attach_all-IsOrdered [] e s = s
  attach_all-IsOrdered ((h, d) ∷ m) e s =
      attach_all-IsOrdered m (attach b h d.parents e) (attach-IsOrdered h d.parents e s)

  pub contains_key-attach_all :
      (m : Map DeltaHash (SignedDelta V)) (e : Edges) (x : DeltaHash)
      → ((y : DeltaHash) → contains_key m y ≡ true → contains_key e.indeg y ≡ true)
      → IsOrdered m
      → contains_key (attach_all b m e).indeg x ≡ contains_key e.indeg x
  unfolding attach_all Map.get
  contains_key-attach_all [] e x k s = refl
  contains_key-attach_all ((h, d) ∷ m) e x k s =
      let here : contains_key e.indeg h ≡ true = ground (arith, k h, text_ord.cmp_refl h) in
      contains_key-attach_all m (attach b h d.parents e) x
        (λ y i.
          contains_key-attach h d.parents e y here ∙ ground (arith, i, k y, text_ord.eq_of_cmp y h))
        s.1
      ∙ contains_key-attach h d.parents e x here

pub count-roots :
    (m : Map DeltaHash ℕ) (x : DeltaHash)
    → IsOrdered m
    → count x (roots m) ≡ (if contains_key m x && number m x == 0 then 1 else 0)
unfolding roots Map.get count
count-roots [] x s = refl
count-roots ((h, n) ∷ m) x s =
    ground (arith, count-roots m x s.1, get_below h m s.0, text_ord.eq_of_cmp x h)
