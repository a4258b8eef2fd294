-- ===== src/Std/Sort.antt =====
-- `slice::sort` and `Vec::dedup`, and what `sort` followed by `dedup` yields.
use did_crdt.Base.{true, ◌||◌, ◌≡◌, refl, List, [], ◌∷◌, arith, if◌then◌else◌}
use did_crdt.Ord.{Ord, eq?, le?, lt?}
use did_crdt.Std.Set.{contains, Above, IsAscending}
use did_crdt.Std.Set.Laws.{Above-trans, IsAscending-ext}

module _ {ℓ} {A : Type ℓ} ⦃o : Ord A⦄ where
  -- Before the first greater element, so that equal elements keep their order.
  unfoldable pub put : A → List A → List A
  put x [] = x ∷ []
  put x (y ∷ ys) = if lt? y x then y ∷ put x ys else x ∷ y ∷ ys

  -- `sort`, which is stable.
  unfoldable pub sort : List A → List A
  unfolding put
  sort [] = []
  sort (x ∷ xs) = put x (sort xs)

  -- Drops each element that equals the one kept before it.
  unfoldable pub dedup_after : A → List A → List A
  dedup_after x [] = []
  dedup_after x (y ∷ ys) = if eq? y x then dedup_after x ys else y ∷ dedup_after y ys

  -- `dedup`.
  unfoldable pub dedup : List A → List A
  unfolding dedup_after
  dedup [] = []
  dedup (x ∷ xs) = x ∷ dedup_after x xs

  -- `v.sort(); v.dedup();`
  unfoldable pub sort_dedup : List A → List A
  unfolding sort dedup
  sort_dedup xs = dedup (sort xs)

  -- `x` lies below every element or equals it.
  abbrev pub AtMost : A → List A → Type 0
  AtMost x [] = Unit
  AtMost x (y ∷ ys) = (le? x y ≡ true) × AtMost x ys

  abbrev pub IsSorted : List A → Type 0
  IsSorted [] = Unit
  IsSorted (x ∷ xs) = AtMost x xs × IsSorted xs

  AtMost-trans : (x y : A) (ys : List A) → le? x y ≡ true → AtMost y ys → AtMost x ys
  AtMost-trans x y [] h a = tt
  AtMost-trans x y (z ∷ zs) h a = (
    ground (
      arith,
      a.0,
      o.eq_of_cmp x y,
      o.eq_of_cmp y z,
      o.lt_trans x y z,
      o.lt_of_gt x z,
      o.cmp_refl x,
    ),
    AtMost-trans x y zs h a.1,
  )

  AtMost-put : (z x : A) (xs : List A) → le? z x ≡ true → AtMost z xs → AtMost z (put x xs)
  unfolding put
  AtMost-put z x [] h a = (h, tt)
  AtMost-put z x (y ∷ ys) h a = ground (arith, AtMost-put z x ys h)

  put-IsSorted : (x : A) (xs : List A) → IsSorted xs → IsSorted (put x xs)
  unfolding put
  put-IsSorted x [] s = (tt, tt)
  put-IsSorted x (y ∷ ys) s = ground (
    arith,
    put-IsSorted x ys s.1,
    AtMost-put y x ys,
    AtMost-trans x y ys,
    o.lt_of_gt x y,
    o.gt_of_lt x y,
  )

  pub sort-IsSorted : (xs : List A) → IsSorted (sort xs)
  unfolding sort
  sort-IsSorted [] = tt
  sort-IsSorted (x ∷ xs) = put-IsSorted x (sort xs) (sort-IsSorted xs)

  Above-dedup_after : (x : A) (ys : List A) → AtMost x ys → IsSorted ys → Above x (dedup_after x ys)
  unfolding dedup_after
  Above-dedup_after x [] a s = tt
  Above-dedup_after x (y ∷ ys) a s = ground (
    arith,
    Above-dedup_after x ys a.1 s.1,
    Above-dedup_after y ys s.0 s.1,
    Above-trans x y (dedup_after y ys),
    o.eq_of_cmp x y,
    o.cmp_refl x,
  )

  dedup_after-IsAscending : (x : A) (ys : List A) → IsSorted ys → IsAscending (dedup_after x ys)
  unfolding dedup_after
  dedup_after-IsAscending x [] s = tt
  dedup_after-IsAscending x (y ∷ ys) s = ground (
    arith,
    dedup_after-IsAscending x ys s.1,
    dedup_after-IsAscending y ys s.1,
    Above-dedup_after y ys s.0 s.1,
  )

  dedup-IsAscending : (xs : List A) → IsSorted xs → IsAscending (dedup xs)
  unfolding dedup
  dedup-IsAscending [] s = tt
  dedup-IsAscending (x ∷ xs) s = (Above-dedup_after x xs s.0 s.1, dedup_after-IsAscending x xs s.1)

  contains-put : (x k : A) (xs : List A) → contains (put x xs) k ≡ (eq? k x || contains xs k)
  unfolding put contains
  contains-put x k [] = refl
  contains-put x k (y ∷ ys) = ground (arith, contains-put x k ys)

  contains-sort : (k : A) (xs : List A) → contains (sort xs) k ≡ contains xs k
  unfolding sort contains
  contains-sort k [] = refl
  contains-sort k (x ∷ xs) = ground (arith, contains-put x k (sort xs), contains-sort k xs)

  contains-dedup_after :
      (k x : A) (ys : List A)
      → (eq? k x || contains (dedup_after x ys) k) ≡ (eq? k x || contains ys k)
  unfolding dedup_after contains
  contains-dedup_after k x [] = refl
  contains-dedup_after k x (y ∷ ys) = ground (
    arith,
    contains-dedup_after k x ys,
    contains-dedup_after k y ys,
    o.eq_of_cmp y x,
    o.cmp_refl k,
  )

  contains-dedup : (k : A) (xs : List A) → contains (dedup xs) k ≡ contains xs k
  unfolding dedup contains
  contains-dedup k [] = refl
  contains-dedup k (x ∷ xs) = contains-dedup_after k x xs

  -- Sorting and dropping repeats gives an ascending list with the same elements.
  pub sort_dedup-IsAscending : (xs : List A) → IsAscending (sort_dedup xs)
  unfolding sort_dedup
  sort_dedup-IsAscending xs = dedup-IsAscending (sort xs) (sort-IsSorted xs)

  pub contains-sort_dedup : (k : A) (xs : List A) → contains (sort_dedup xs) k ≡ contains xs k
  unfolding sort_dedup
  contains-sort_dedup k xs = rw (contains-dedup, contains-sort)

  -- Lists with the same elements, in any order and number, have the same canonical form.
  pub sort_dedup_ext :
      (xs ys : List A) → ((k : A) → contains xs k ≡ contains ys k) → sort_dedup xs ≡ sort_dedup ys
  sort_dedup_ext xs ys h =
      IsAscending-ext (sort_dedup xs) (sort_dedup ys) (sort_dedup-IsAscending xs)
        (sort_dedup-IsAscending ys) (λ k. simp (contains-sort_dedup) (h k))

  -- An ascending list is its own canonical form.
  pub sort_dedup_fixed : (xs : List A) → IsAscending xs → sort_dedup xs ≡ xs
  sort_dedup_fixed xs s =
      IsAscending-ext (sort_dedup xs) xs (sort_dedup-IsAscending xs) s
        (λ k. contains-sort_dedup k xs)

-- `sort_by(|a, b| a.key.cmp(&b.key))`, which is stable.
module _ {ℓ κ} {A : Type ℓ} {K : Type κ} ⦃o : Ord K⦄ (key : A → K) where
  unfoldable pub put_by_key : A → List A → List A
  put_by_key x [] = x ∷ []
  put_by_key x (y ∷ ys) =
      let rest = put_by_key x ys in if lt? (key y) (key x) then y ∷ rest else x ∷ y ∷ ys

  unfoldable pub sort_by_key : List A → List A
  unfolding put_by_key
  sort_by_key [] = []
  sort_by_key (x ∷ xs) = put_by_key x (sort_by_key xs)
