-- ===== src/Std/Set.antt =====
-- `BTreeSet` and `HashSet`: the elements in ascending order.
pub mod Laws
use Prim.Native.Nat.Ordering.{lt, eq, gt}
use did_crdt.Base.{Bool, List, [], ◌∷◌, ◌||◌, if◌then◌else◌}
use did_crdt.Ord.{Ord, ◌≺◌, eq?}

module _ {ℓ} {A : Type ℓ} ⦃o : Ord A⦄ where
  unfoldable pub contains : List A → A → Bool
  contains [] x = Bool.false
  contains (y ∷ ys) x = eq? x y || contains ys x

  unfoldable pub insert : A → List A → List A
  insert x [] = x ∷ []
  insert x (y ∷ ys) = elim (o.cmp x y) [ lt ↦ x ∷ y ∷ ys | eq ↦ y ∷ ys | gt ↦ y ∷ insert x ys ]

  unfoldable pub remove : A → List A → List A
  remove x [] = []
  remove x (y ∷ ys) = let rest = remove x ys in if eq? x y then rest else y ∷ rest

  -- Every element of the one set put into the other.
  unfoldable pub union : List A → List A → List A
  union xs [] = xs
  union xs (y ∷ ys) = insert y (union xs ys)

  -- `x` lies below every element.
  abbrev pub Above : A → List A → Type 0
  Above x [] = Unit
  Above x (y ∷ ys) = (x ≺ y) × Above x ys

  -- Strictly ascending: sorted, and with no element twice.
  abbrev pub IsAscending : List A → Type 0
  IsAscending [] = Unit
  IsAscending (x ∷ xs) = Above x xs × IsAscending xs
