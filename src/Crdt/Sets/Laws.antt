-- ===== src/Crdt/Sets/Laws.antt =====
-- src/core/crdt.rs: what the grow-only sets read as after each operation.
use did_crdt.Base.{◌≡◌, arith}
use did_crdt.Ord.{Ord}
use did_crdt.Std.Set
use did_crdt.Std.Set.Laws.{contains-insert, IsAscending-ext}
use did_crdt.Crdt.Crates.{GSet}
use did_crdt.Crdt.Sets.{method_ord}

module _ {A : Type 0} ⦃o : Ord A⦄ (g : GSet A) where
  -- Two sets that contain the same elements read alike.
  read_ext :
      (s t : g.Carrier)
      → ((x : A) → Set.contains (g.read s) x ≡ Set.contains (g.read t) x)
      → g.read s ≡ g.read t
  read_ext s t h = IsAscending-ext (g.read s) (g.read t) (g.read_ascending s) (g.read_ascending t) h

  pub read-merge_comm : (s t : g.Carrier) → g.read (g.merge s t) ≡ g.read (g.merge t s)
  read-merge_comm s t =
      read_ext (g.merge s t) (g.merge t s)
        (λ x. ground (arith, g.merge_union s t x, g.merge_union t s x))

  pub read-merge_assoc :
      (s t u : g.Carrier) → g.read (g.merge (g.merge s t) u) ≡ g.read (g.merge s (g.merge t u))
  read-merge_assoc s t u = read_ext (g.merge (g.merge s t) u) (g.merge s (g.merge t u)) (λ x.
      ground (
        arith,
        g.merge_union (g.merge s t) u x,
        g.merge_union s (g.merge t u) x,
        g.merge_union s t x,
        g.merge_union t u x,
      ))

  pub read-merge_idem : (s : g.Carrier) → g.read (g.merge s s) ≡ g.read s
  read-merge_idem s = read_ext (g.merge s s) s (λ x. ground (arith, g.merge_union s s x))

  -- Insertions commute.
  pub read-insert_comm :
      (x y : A) (s : g.Carrier)
      → g.read (g.insert x (g.insert y s)) ≡ g.read (g.insert y (g.insert x s))
  read-insert_comm x y s = read_ext (g.insert x (g.insert y s)) (g.insert y (g.insert x s)) (λ z.
      ground (
        arith,
        g.read_insert x (g.insert y s),
        g.read_insert y s,
        g.read_insert y (g.insert x s),
        g.read_insert x s,
        contains-insert x z (Set.insert y (g.read s)),
        contains-insert y z (g.read s),
        contains-insert y z (Set.insert x (g.read s)),
        contains-insert x z (g.read s),
      ))
