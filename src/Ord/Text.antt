-- ===== src/Ord/Text.antt =====
-- Rust's `String` as its bytes, which is how its `Ord` compares it; more generally `Vec<T>`.
use Prim.Native.Nat.Ordering.{lt, eq, gt}
use did_crdt.Base.{ℕ, ◌≡◌, refl, List, [], ◌∷◌, Ordering, arith}
use did_crdt.Ord.{Ord, IsLawful, then_with, nat_ord}

abbrev pub Text : Type 0
Text = List ℕ

module _ {A : Type 0} ⦃o : Ord A⦄ where
  unfoldable pub cmp_list : List A → List A → Ordering
  cmp_list [] [] = eq
  cmp_list [] (y ∷ ys) = lt
  cmp_list (x ∷ xs) [] = gt
  cmp_list (x ∷ xs) (y ∷ ys) = then_with (o.cmp x y) (cmp_list xs ys)

  cmp_list_refl : (xs : List A) → cmp_list xs xs ≡ eq
  unfolding cmp_list
  cmp_list_refl [] = refl
  cmp_list_refl (x ∷ xs) = ground (arith, o.cmp_refl x, cmp_list_refl xs)

  eq_of_cmp_list : (xs ys : List A) → cmp_list xs ys ≡ eq → xs ≡ ys
  unfolding cmp_list
  eq_of_cmp_list [] [] h = refl
  eq_of_cmp_list [] (y ∷ ys) h = cc
  eq_of_cmp_list (x ∷ xs) [] h = cc
  eq_of_cmp_list (x ∷ xs) (y ∷ ys) h = ground (arith, o.eq_of_cmp x y, eq_of_cmp_list xs ys)

  cmp_list-swap :
      (xs ys : List A)
      → (cmp_list xs ys ≡ gt → cmp_list ys xs ≡ lt) × (cmp_list xs ys ≡ lt → cmp_list ys xs ≡ gt)
  unfolding cmp_list
  cmp_list-swap [] [] = ground arith
  cmp_list-swap [] (y ∷ ys) = ground arith
  cmp_list-swap (x ∷ xs) [] = ground arith
  cmp_list-swap (x ∷ xs) (y ∷ ys) =
      ground
        (arith, cmp_list-swap xs ys, o.eq_of_cmp x y, o.cmp_refl x, o.lt_of_gt x y, o.gt_of_lt x y)

  cmp_list_trans :
      (xs ys zs : List A) → cmp_list xs ys ≡ lt → cmp_list ys zs ≡ lt → cmp_list xs zs ≡ lt
  unfolding cmp_list
  cmp_list_trans [] ys [] h k = ground (arith, cmp_list-swap [] ys)
  cmp_list_trans [] ys (z ∷ zs) h k = refl
  cmp_list_trans (x ∷ xs) [] zs h k = cc
  cmp_list_trans (x ∷ xs) (y ∷ ys) [] h k = cc
  cmp_list_trans (x ∷ xs) (y ∷ ys) (z ∷ zs) h k =
      ground (arith, o.eq_of_cmp x y, o.eq_of_cmp y z, o.lt_trans x y z, cmp_list_trans xs ys zs)

  pub cmp_list-IsLawful : IsLawful {A = List A} cmp_list
  cmp_list-IsLawful = record {
    cmp_refl = cmp_list_refl;
    eq_of_cmp = eq_of_cmp_list;
    lt_of_gt = λ xs ys. (cmp_list-swap xs ys).0;
    gt_of_lt = λ xs ys. (cmp_list-swap xs ys).1;
    lt_trans = cmp_list_trans;
  }

  instance unfoldable pub list_ord : Ord (List A)
  list_ord = record { cmp = cmp_list; lawful = cmp_list-IsLawful }

-- The order on texts, by name.
abbrev pub text_ord : Ord Text
text_ord = list_ord
