-- ===== src/Std/Set/Laws.antt =====
-- Membership after each operation, and that membership determines an ascending list.
use Prim.Native.Nat.Ordering.{lt, eq, gt}
use mathlib.Core.List.{reverse-append}
use did_crdt.Base.{
  ◌++◌, reverse, ◌∙◌, ap, true, false, not, ◌&&◌, ◌||◌, ◌≡◌, refl, sym, List, [], ◌∷◌, arith, ◌⊎◌,
  subst, Ordering,
}
use did_crdt.Ord.{Ord, ◌≺◌, eq?}
use did_crdt.Std.Set.{contains, insert, remove, union, Above, IsAscending}

module _ {ℓ} {A : Type ℓ} ⦃o : Ord A⦄ where
  pub contains-insert :
      (x y : A) (xs : List A) → contains (insert x xs) y ≡ (eq? y x || contains xs y)
  unfolding contains insert
  contains-insert x y [] = refl
  contains-insert x y (z ∷ zs) = ground (arith, o.eq_of_cmp x z, contains-insert x y zs)

  pub contains-insert_self : (x : A) (xs : List A) → contains (insert x xs) x ≡ true
  contains-insert_self x xs = ground (arith, contains-insert x x xs, o.cmp_refl x)

  pub contains-remove :
      (x y : A) (xs : List A) → contains (remove x xs) y ≡ (not (eq? y x) && contains xs y)
  unfolding contains remove
  contains-remove x y [] = ground arith
  contains-remove x y (z ∷ zs) = ground (
    arith,
    o.eq_of_cmp x z,
    o.eq_of_cmp y z,
    o.eq_of_cmp y x,
    o.cmp_refl x,
    o.cmp_refl y,
    contains-remove x y zs,
  )

  pub contains-union :
      (xs ys : List A) (x : A) → contains (union xs ys) x ≡ (contains xs x || contains ys x)
  unfolding contains union
  contains-union xs [] x = ground arith
  contains-union xs (y ∷ ys) x =
      ground (arith, contains-insert y x (union xs ys), contains-union xs ys x)

  -- An element that is in the set is one of its elements.
  pub contains-cons :
      (x y : A) (ys : List A) → contains (y ∷ ys) x ≡ true → (x ≡ y) ⊎ (contains ys x ≡ true)
  unfolding contains
  contains-cons x y ys h = ground (arith, o.eq_of_cmp x y)

  pub contains_head : (x : A) (xs : List A) → contains (x ∷ xs) x ≡ true
  unfolding contains
  contains_head x xs = ground (arith, o.cmp_refl x)

  pub contains_tail : (x y : A) (ys : List A) → contains ys x ≡ true → contains (y ∷ ys) x ≡ true
  unfolding contains
  contains_tail x y ys h = ground arith

  pub Above-trans : (x y : A) (ys : List A) → x ≺ y → Above y ys → Above x ys
  Above-trans x y [] h a = tt
  Above-trans x y (z ∷ zs) h a = (o.lt_trans x y z h a.0, Above-trans x y zs h a.1)

  pub Above-contains : (x : A) (ys : List A) → Above x ys → contains ys x ≡ false
  unfolding contains
  Above-contains x [] a = refl
  Above-contains x (y ∷ ys) a = ground (arith, Above-contains x ys a.1)

  Above-insert : (z x : A) (xs : List A) → z ≺ x → Above z xs → Above z (insert x xs)
  unfolding insert
  Above-insert z x [] h a = (h, tt)
  Above-insert z x (y ∷ ys) h a = ground (arith, Above-insert z x ys h)

  pub insert-IsAscending : (x : A) (xs : List A) → IsAscending xs → IsAscending (insert x xs)
  unfolding insert
  insert-IsAscending x [] s = (tt, tt)
  insert-IsAscending x (y ∷ ys) s =
      ground (
        arith,
        insert-IsAscending x ys s.1,
        Above-trans x y ys,
        Above-insert y x ys,
        o.lt_of_gt x y,
      )

  Above-remove : (z x : A) (xs : List A) → Above z xs → Above z (remove x xs)
  unfolding remove
  Above-remove z x [] a = tt
  Above-remove z x (y ∷ ys) a = ground (arith, Above-remove z x ys)

  pub remove-IsAscending : (x : A) (xs : List A) → IsAscending xs → IsAscending (remove x xs)
  unfolding remove
  remove-IsAscending x [] s = tt
  remove-IsAscending x (y ∷ ys) s = ground (arith, remove-IsAscending x ys, Above-remove y x ys)

  pub union-IsAscending : (xs ys : List A) → IsAscending xs → IsAscending (union xs ys)
  unfolding union
  union-IsAscending xs [] s = s
  union-IsAscending xs (y ∷ ys) s = insert-IsAscending y (union xs ys) (union-IsAscending xs ys s)

  -- The tails of two lists with one head agree wherever the lists do.
  contains-tails :
      (x : A) (xs ys : List A)
      → Above x xs
      → Above x ys
      → ((k : A) → contains (x ∷ xs) k ≡ contains (x ∷ ys) k)
      → (k : A) → contains xs k ≡ contains ys k
  unfolding contains
  contains-tails x xs ys a b h k =
      ground (arith, h k, o.eq_of_cmp k x, Above-contains x xs a, Above-contains x ys b)

  -- Two ascending lists with the same elements are equal.
  pub IsAscending-ext :
      (xs ys : List A)
      → IsAscending xs
      → IsAscending ys
      → ((k : A) → contains xs k ≡ contains ys k)
      → xs ≡ ys
  IsAscending-ext [] [] s t h = refl
  IsAscending-ext [] (y ∷ ys) s t h = unfold contains in cc (h y, contains_head y ys)
  IsAscending-ext (x ∷ xs) [] s t h = unfold contains in cc (h x, contains_head x xs)
  IsAscending-ext (x ∷ xs) (y ∷ ys) s t h = go (o.cmp x y) refl (IsAscending-ext xs ys s.1 t.1)
    where
      below : (a b : A) (bs : List A) → a ≺ b → Above b bs → contains (b ∷ bs) a ≡ false
      below a b bs l u = Above-contains a (b ∷ bs) (l, Above-trans a b bs l u)

      go :
          (r : Ordering)
          → o.cmp x y ≡ r
          → (((k : A) → contains xs k ≡ contains ys k) → xs ≡ ys)
          → x ∷ xs ≡ y ∷ ys
      go lt e ih = cc (h x, contains_head x xs, below x y ys e t.0)
      go gt e ih = cc (h y, contains_head y ys, below y x xs (o.lt_of_gt x y e) s.0)
      go eq e ih =
          let same = o.eq_of_cmp x y e in
          let tails =
            contains-tails x xs ys s.0 (subst (λ z. Above z ys) (sym same) t.0)
              (subst (λ z. (k : A) → contains (x ∷ xs) k ≡ contains (z ∷ ys) k) (sym same) h) in
          cc (ih tails)

module _ {ℓ} {A : Type ℓ} ⦃o : Ord A⦄ where
  pub contains-append :
      (xs ys : List A) (x : A) → contains (xs ++ ys) x ≡ (contains xs x || contains ys x)
  unfolding contains
  contains-append [] ys x = refl
  contains-append (z ∷ zs) ys x = ground (arith, contains-append zs ys x)

  -- Reversing a list keeps its elements.
  pub contains-reverse : (xs : List A) (x : A) → contains (reverse xs) x ≡ contains xs x
  unfolding contains
  contains-reverse [] x = refl
  contains-reverse (y ∷ ys) x =
      ap (λ l. contains l x) (reverse-append (y ∷ []) ys)
      ∙ contains-append (reverse ys) (y ∷ []) x
      ∙ ground (arith, contains-reverse ys x)
