-- ===== src/Crdt/Crates.antt =====
-- What src/core/crdt.rs uses of the `crdts` crate, as interfaces with that crate's documented
-- behaviour: the grow-only set, and the last-writer-wins register.
use did_crdt.Base.{Bool, List, [], ◌≡◌, ◌||◌}
use did_crdt.Ord.{Ord, ◌≺◌}
use did_crdt.Std.Set
use did_crdt.Std.Set.{IsAscending}

-- `crdts::GSet<A>`. `read` gives the elements as a `BTreeSet`.
pub record GSet (A : Type 0) ⦃o : Ord A⦄ : Type 1 where
  pub Carrier : Type 0
  pub new : Carrier
  pub insert : A → Carrier → Carrier
  pub contains : Carrier → A → Bool
  pub read : Carrier → List A
  pub merge : Carrier → Carrier → Carrier
  pub read_new : read new ≡ []
  pub read_insert : (x : A) (s : Carrier) → read (insert x s) ≡ Set.insert x (read s)
  pub read_ascending : (s : Carrier) → IsAscending (read s)
  pub contains_read : (s : Carrier) (x : A) → contains s x ≡ Set.contains (read s) x
  pub merge_union :
      (s t : Carrier) (x : A)
      → Set.contains (read (merge s t)) x ≡ (Set.contains (read s) x || Set.contains (read t) x)

-- `crdts::LWWReg<V, M>`, whose two fields are public.
pub record LwwReg (V : Type 0) (M : Type 0) : Type 0 where
  pub val : V
  pub marker : M

-- Its methods. What `merge` does with equal markers and different values is left open.
pub record Lww (V : Type 0) (M : Type 0) ⦃o : Ord M⦄ : Type 0 where
  pub update : LwwReg V M → V → M → LwwReg V M
  pub merge : LwwReg V M → LwwReg V M → LwwReg V M
  pub update_newer :
      (r : LwwReg V M) (v : V) (m : M)
      → r.marker ≺ m
      → update r v m ≡ record { val = v; marker = m }
  pub update_stale : (r : LwwReg V M) (v : V) (m : M) → ¬ (r.marker ≺ m) → update r v m ≡ r
  pub merge_newer : (r s : LwwReg V M) → r.marker ≺ s.marker → merge r s ≡ s
  pub merge_older : (r s : LwwReg V M) → s.marker ≺ r.marker → merge r s ≡ r
  pub merge_same : (r : LwwReg V M) → merge r r ≡ r
