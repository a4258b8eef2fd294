-- ===== src/Std/Map.antt =====
-- `BTreeMap` and `HashMap`: the entries in ascending order of their keys.
pub mod Laws
use Prim.Native.Nat.Ordering.{lt, eq, gt}
use did_crdt.Base.{Bool, true, false, List, [], ◌∷◌, Option, none, some, if◌then◌else◌}
use did_crdt.Ord.{Ord, ◌≺◌, eq?}
use did_crdt.Std.Set.{Above, IsAscending}

abbrev pub Map {ℓ κ} : Type ℓ → Type κ → Type (ℓ ⊔ κ)
Map K V = List (K × V)

abbrev pub is_some {ℓ} : {A : Type ℓ} → Option A → Bool
is_some none = false
is_some (some _) = true

module _ {ℓ κ} {K : Type ℓ} {V : Type κ} where
  abbrev pub keys : Map K V → List K
  keys [] = []
  keys ((k, v) ∷ m) = k ∷ keys m

  abbrev pub values : Map K V → List V
  values [] = []
  values ((k, v) ∷ m) = v ∷ values m

module _ {ℓ κ} {K : Type ℓ} {V : Type κ} ⦃o : Ord K⦄ where
  -- `get`.
  unfoldable pub get : Map K V → K → Option V
  get [] q = none
  get ((k, v) ∷ m) q = if eq? q k then some v else get m q

  -- `contains_key`.
  abbrev pub contains_key : Map K V → K → Bool
  contains_key m q = is_some (get m q)

  -- `insert`, which replaces the value of a key that is there.
  unfoldable pub insert : K → V → Map K V → Map K V
  insert q w [] = (q, w) ∷ []
  insert q w ((k, v) ∷ m) = elim (o.cmp q k) [
    | lt ↦ (q, w) ∷ (k, v) ∷ m
    | eq ↦ (q, w) ∷ m
    | gt ↦ (k, v) ∷ insert q w m
  ]

  unfoldable pub remove : K → Map K V → Map K V
  remove q [] = []
  remove q ((k, v) ∷ m) = let rest = remove q m in if eq? q k then rest else (k, v) ∷ rest

  abbrev pub IsOrdered : Map K V → Type 0
  IsOrdered m = IsAscending (keys m)
