-- ===== src/Std/Map/Laws.antt =====
-- Lookup after each operation, and that lookup determines an ordered map.
use Prim.Native.Nat.Ordering.{lt, eq, gt}
use did_crdt.Base.{◌≡◌, refl, sym, subst, [], ◌∷◌, none, some, arith, Ordering, if◌then◌else◌}
use did_crdt.Ord.{Ord, ◌≺◌, eq?}
use did_crdt.Std.Map.{Map, keys, get, insert, remove, IsOrdered}
use did_crdt.Std.Set.{Above}
use did_crdt.Std.Set.Laws.{Above-trans}

module _ {ℓ κ} {K : Type ℓ} {V : Type κ} ⦃o : Ord K⦄ where
  pub get-insert :
      (q : K) (w : V) (p : K) (m : Map K V)
      → get (insert q w m) p ≡ (if eq? p q then some w else get m p)
  unfolding get insert
  get-insert q w p [] = refl
  get-insert q w p ((k, v) ∷ m) =
      ground
        (arith, o.eq_of_cmp q k, o.eq_of_cmp p k, o.eq_of_cmp p q, o.cmp_refl q, get-insert q w p m)

  pub get-insert_self : (q : K) (w : V) (m : Map K V) → get (insert q w m) q ≡ some w
  get-insert_self q w m = ground (arith, get-insert q w q m, o.cmp_refl q)

  pub get-remove :
      (q p : K) (m : Map K V) → get (remove q m) p ≡ (if eq? p q then none else get m p)
  unfolding get remove
  get-remove q p [] = ground arith
  get-remove q p ((k, v) ∷ m) = ground (
    arith,
    get-remove q p m,
    o.eq_of_cmp q k,
    o.eq_of_cmp p k,
    o.eq_of_cmp p q,
    o.cmp_refl p,
    o.cmp_refl q,
  )

  Above-insert :
      (z q : K) (w : V) (m : Map K V) → z ≺ q → Above z (keys m) → Above z (keys (insert q w m))
  unfolding insert
  Above-insert z q w [] h a = (h, tt)
  Above-insert z q w ((k, v) ∷ m) h a = ground (arith, Above-insert z q w m h, o.eq_of_cmp q k)

  pub insert-IsOrdered : (q : K) (w : V) (m : Map K V) → IsOrdered m → IsOrdered (insert q w m)
  unfolding insert
  insert-IsOrdered q w [] s = (tt, tt)
  insert-IsOrdered q w ((k, v) ∷ m) s = go (o.cmp q k) refl (insert-IsOrdered q w m s.1)
    where
      go :
          (r : Ordering)
          → o.cmp q k ≡ r
          → IsOrdered (insert q w m)
          → IsOrdered (insert q w ((k, v) ∷ m))
      go lt e ih = rw (e, insert) ((e, Above-trans q k (keys m) e s.0), s)
      go eq e ih = rw (e, insert) (subst (λ z. Above z (keys m)) (sym (o.eq_of_cmp q k e)) s.0, s.1)
      go gt e ih = rw (e, insert) (Above-insert k q w m (o.lt_of_gt q k e) s.0, ih)

  Above-remove : (z q : K) (m : Map K V) → Above z (keys m) → Above z (keys (remove q m))
  unfolding remove
  Above-remove z q [] a = tt
  Above-remove z q ((k, v) ∷ m) a = ground (arith, Above-remove z q m)

  pub remove-IsOrdered : (q : K) (m : Map K V) → IsOrdered m → IsOrdered (remove q m)
  unfolding remove
  remove-IsOrdered q [] s = tt
  remove-IsOrdered q ((k, v) ∷ m) s = ground (arith, remove-IsOrdered q m, Above-remove k q m)

  pub get_below : (q : K) (m : Map K V) → Above q (keys m) → get m q ≡ none
  unfolding get
  get_below q [] a = refl
  get_below q ((k, v) ∷ m) a = ground (arith, get_below q m a.1)

  pub get_head : (k : K) (v : V) (m : Map K V) → get ((k, v) ∷ m) k ≡ some v
  unfolding get
  get_head k v m = ground (arith, o.cmp_refl k)

  get-tails :
      (k : K) (v w : V) (m n : Map K V)
      → Above k (keys m)
      → Above k (keys n)
      → ((q : K) → get ((k, v) ∷ m) q ≡ get ((k, w) ∷ n) q)
      → (q : K) → get m q ≡ get n q
  unfolding get
  get-tails k v w m n a b h q =
      ground (arith, h q, o.eq_of_cmp q k, get_below k m a, get_below k n b)

  -- Two ordered maps that read alike are equal.
  pub IsOrdered-ext :
      (m n : Map K V) → IsOrdered m → IsOrdered n → ((q : K) → get m q ≡ get n q) → m ≡ n
  IsOrdered-ext [] [] s t h = refl
  IsOrdered-ext [] ((k, v) ∷ n) s t h = unfold get in cc (h k, get_head k v n)
  IsOrdered-ext ((k, v) ∷ m) [] s t h = unfold get in cc (h k, get_head k v m)
  IsOrdered-ext ((k, v) ∷ m) ((j, w) ∷ n) s t h = go (o.cmp k j) refl (IsOrdered-ext m n s.1 t.1)
    where
      below : (a b : K) (u : V) (l : Map K V) → a ≺ b → Above b (keys l) → get ((b, u) ∷ l) a ≡ none
      below a b u l e x = get_below a ((b, u) ∷ l) (e, Above-trans a b (keys l) e x)

      go :
          (r : Ordering)
          → o.cmp k j ≡ r
          → (((q : K) → get m q ≡ get n q) → m ≡ n)
          → ◌≡◌ {A = Map K V} ((k, v) ∷ m) ((j, w) ∷ n)
      go lt e ih = cc (h k, get_head k v m, below k j w n e t.0)
      go gt e ih = cc (h j, get_head j w n, below j k v m (o.lt_of_gt k j e) s.0)
      go eq e ih =
          let same = o.eq_of_cmp k j e in
          let heads = subst (λ z. (q : K) → get ((k, v) ∷ m) q ≡ get ((z, w) ∷ n) q) (sym same) h in
          let tails =
            get-tails k v w m n s.0 (subst (λ z. Above z (keys n)) (sym same) t.0) heads in
          ground (arith, ih tails, same, heads k, get_head k v m, get_head k w n)
