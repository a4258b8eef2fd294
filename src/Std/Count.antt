-- ===== src/Std/Count.antt =====
-- How often an element stands in a list, and that sorting does not change it.
use mathlib.Core.List.{reverse-append}
use did_crdt.Base.{
  ◌==◌, ℕ, suc, ◌+◌, ◌≤◌, ◌≡◌, refl, true, false, List, [], ◌∷◌, ◌++◌, length, arith, if◌then◌else◌,
  reverse, ap, ◌∙◌,
}
use did_crdt.Ord.{Ord, eq?}
use did_crdt.Std.Map
use did_crdt.Std.Map.{Map, keys, contains_key, IsOrdered}
use did_crdt.Std.Map.Laws.{get_below}
use did_crdt.Std.Set.{contains}
use did_crdt.Std.Sort.{put, sort}

module _ {ℓ} {A : Type ℓ} ⦃o : Ord A⦄ where
  unfoldable pub count : A → List A → ℕ
  count x [] = 0
  count x (y ∷ ys) = if eq? x y then suc (count x ys) else count x ys

  pub count-append : (x : A) (xs ys : List A) → count x (xs ++ ys) ≡ count x xs + count x ys
  unfolding count
  count-append x [] ys = omega arith
  count-append x (y ∷ xs) ys = ground (arith, count-append x xs ys)

  pub contains-count :
      (x : A) (xs : List A) → contains xs x ≡ (if count x xs == 0 then false else true)
  unfolding count contains
  contains-count x [] = refl
  contains-count x (y ∷ ys) = ground (arith, contains-count x ys)

  count-put : (x y : A) (ys : List A) → count x (put y ys) ≡ count x (y ∷ ys)
  unfolding count put
  count-put x y [] = refl
  count-put x y (z ∷ zs) = ground (arith, count-put x y zs)

  pub count-sort : (x : A) (xs : List A) → count x (sort xs) ≡ count x xs
  unfolding count sort
  count-sort x [] = refl
  count-sort x (y ∷ ys) = ground (arith, count-put x y (sort ys), count-sort x ys)

  pub count-reverse : (x : A) (xs : List A) → count x (reverse xs) ≡ count x xs
  unfolding count
  count-reverse x [] = refl
  count-reverse x (y ∷ ys) =
      ap (count x) (reverse-append (y ∷ []) ys)
      ∙ count-append x (reverse ys) (y ∷ [])
      ∙ ground (arith, count-reverse x ys)

  -- One occurrence of `x` taken out.
  unfoldable pub take_out : A → List A → List A
  take_out x [] = []
  take_out x (y ∷ ys) = let rest = take_out x ys in if eq? x y then ys else y ∷ rest

  count-take_out :
      (x z : A) (xs : List A)
      → contains xs x ≡ true
      → count z xs ≡ (if eq? z x then suc (count z (take_out x xs)) else count z (take_out x xs))
  unfolding count take_out contains
  count-take_out x z [] h = cc
  count-take_out x z (y ∷ ys) h = ground (
    arith,
    h,
    count-take_out x z ys,
    o.eq_of_cmp x y,
    o.eq_of_cmp z x,
    o.cmp_refl x,
    o.cmp_refl z,
  )

  length-take_out :
      (x : A) (xs : List A) → contains xs x ≡ true → length xs ≡ suc (length (take_out x xs))
  unfolding take_out contains
  length-take_out x [] h = cc
  length-take_out x (y ∷ ys) h = ground (arith, h, length-take_out x ys)

  -- A list without more of any element than another is no longer.
  pub length_le : (xs ys : List A) → ((x : A) → count x xs ≤ count x ys) → length xs ≤ length ys
  unfolding count
  length_le [] ys h = ground arith
  length_le (x ∷ xs) ys h =
      let there : contains ys x ≡ true = ground (arith, h x, o.cmp_refl x, contains-count x ys) in
      let rest : length xs ≤ length (take_out x ys) =
        length_le xs (take_out x ys) (λ z. ground (arith, h z, count-take_out x z ys there)) in
      ground (arith, rest, length-take_out x ys there)

  -- If it is as long, it has as many of each.
  pub count-eq_of_length :
      (xs ys : List A)
      → ((x : A) → count x xs ≤ count x ys)
      → length xs ≡ length ys
      → (z : A) → count z xs ≡ count z ys
  unfolding count
  count-eq_of_length [] [] h e z = refl
  count-eq_of_length [] (y ∷ ys) h e z = ground (arith, e)
  count-eq_of_length (x ∷ xs) ys h e z =
      let there : contains ys x ≡ true = ground (arith, h x, o.cmp_refl x, contains-count x ys) in
      let rest : count z xs ≡ count z (take_out x ys) =
        count-eq_of_length xs (take_out x ys)
          (λ w. ground (arith, h w, count-take_out x w ys there))
          (ground (arith, e, length-take_out x ys there)) z in
      ground (arith, rest, count-take_out x z ys there)

-- The keys of an ordered map, each of them once.
module _ {ℓ κ} {K : Type ℓ} {V : Type κ} ⦃o : Ord K⦄ where
  pub count-keys :
      (x : K) (m : Map K V) → IsOrdered m → count x (keys m) ≡ (if contains_key m x then 1 else 0)
  unfolding count Map.get
  count-keys x [] s = refl
  count-keys x ((k, v) ∷ m) s =
      ground (arith, count-keys x m s.1, get_below k m s.0, o.eq_of_cmp x k)

  pub length-keys : (m : Map K V) → length (keys m) ≡ length m
  length-keys [] = refl
  length-keys ((k, v) ∷ m) = ap suc (length-keys m)
