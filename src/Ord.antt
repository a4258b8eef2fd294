-- ===== src/Ord.antt =====
-- The trait `Ord` as an instance: a comparison and the laws that the trait asks of it. Derived
-- orders (`#[derive(PartialOrd, Ord)]`) are lexicographic in the order of the fields.
pub mod Text
use Prim.Native.Nat.Ordering.{lt, eq, gt}
use did_crdt.Base.{ℕ, compare, Ordering, ◌≡◌, refl, ap, Bool, true, false, arith, ◌⊎◌, inl, inr}

pub record IsLawful {ℓ} {A : Type ℓ} (cmp : A → A → Ordering) : Type ℓ where
  -- `Eq` and its agreement with `cmp`.
  pub eq_of_cmp : (x y : A) → cmp x y ≡ eq → x ≡ y
  pub cmp_refl : (x : A) → cmp x x ≡ eq
  -- Duality.
  pub gt_of_lt : (x y : A) → cmp x y ≡ lt → cmp y x ≡ gt
  pub lt_of_gt : (x y : A) → cmp x y ≡ gt → cmp y x ≡ lt
  -- Transitivity.
  pub lt_trans : (x y z : A) → cmp x y ≡ lt → cmp y z ≡ lt → cmp x z ≡ lt

pub record Ord {ℓ} (A : Type ℓ) : Type ℓ where
  pub cmp : A → A → Ordering
  pub lawful : IsLawful cmp
  pub open lawful use *

infix 50 ◌≺◌
abbrev pub ◌≺◌ {ℓ} : {A : Type ℓ} ⦃o : Ord A⦄ → A → A → Type 0
◌≺◌ ⦃o⦄ x y = o.cmp x y ≡ lt

module _ {ℓ} {A : Type ℓ} ⦃o : Ord A⦄ where
  -- `a < b`, `a == b`.
  abbrev pub lt? : A → A → Bool
  lt? a b = elim (o.cmp a b) [ lt ↦ true | _ ↦ false ]

  abbrev pub eq? : A → A → Bool
  eq? a b = elim (o.cmp a b) [ eq ↦ true | _ ↦ false ]

  -- `a <= b`.
  abbrev pub le? : A → A → Bool
  le? a b = elim (o.cmp a b) [ gt ↦ false | _ ↦ true ]

  pub eq?_refl : (a : A) → eq? a a ≡ true
  eq?_refl a = ground (arith, o.cmp_refl a)

  pub eq_of_eq? : (a b : A) → eq? a b ≡ true → a ≡ b
  eq_of_eq? a b h = ground (arith, o.eq_of_cmp a b)

  pub eq?_comm : (a b : A) → eq? a b ≡ eq? b a
  eq?_comm a b = ground (arith, o.eq_of_cmp a b, o.eq_of_cmp b a, o.cmp_refl a)

  pub not-lt_refl : (a : A) → ¬ (a ≺ a)
  not-lt_refl a h = ground (arith, o.cmp_refl a)

  pub cmp-cases : (a b : A) → (o.cmp a b ≡ lt) ⊎ (o.cmp a b ≡ eq) ⊎ (o.cmp a b ≡ gt)
  cmp-cases a b = ground arith

-- The numbers.
pub nat_ord-IsLawful : IsLawful compare
nat_ord-IsLawful = ground arith

instance unfoldable pub nat_ord : Ord ℕ
nat_ord = record { lawful = nat_ord-IsLawful; cmp = compare }

-- `Ordering::then`: the second comparison decides when the first finds no difference.
abbrev pub then_with : Ordering → Ordering → Ordering
then_with eq next = next
then_with lt next = lt
then_with gt next = gt

-- Fields compare one after the other.
module _ {ℓ κ} {S : Type ℓ} {T : Type κ} ⦃s : Ord S⦄ ⦃t : Ord T⦄ where
  abbrev pub lex : S × T → S × T → Ordering
  lex p q = then_with (s.cmp p.0 q.0) (t.cmp p.1 q.1)

  pub lex-IsLawful : IsLawful {A = S × T} lex
  lex-IsLawful = record {
    eq_of_cmp = λ p q. ground (arith, t.eq_of_cmp p.1 q.1, s.eq_of_cmp p.0 q.0);
    cmp_refl = λ p. ground (arith, t.cmp_refl p.1, s.cmp_refl p.0);
    gt_of_lt = λ p q.
        ground (arith, t.gt_of_lt p.1 q.1, s.cmp_refl p.0, s.gt_of_lt p.0 q.0, s.eq_of_cmp p.0 q.0);
    lt_of_gt = λ p q.
        ground (arith, t.lt_of_gt p.1 q.1, s.cmp_refl p.0, s.lt_of_gt p.0 q.0, s.eq_of_cmp p.0 q.0);
    lt_trans = λ p q r. ground (
      arith,
      t.lt_trans p.1 q.1 r.1,
      s.lt_trans p.0 q.0 r.0,
      s.eq_of_cmp q.0 r.0,
      s.eq_of_cmp p.0 q.0,
    );
  }

  instance unfoldable pub pair_ord : Ord (S × T)
  pair_ord = record { lawful = lex-IsLawful; cmp = lex }

-- An order read through an injective view, such as a struct through the tuple of its fields.
module _ {ℓ κ} {A : Type ℓ} {B : Type κ} ⦃b : Ord B⦄ (view : A → B)
    (injective : (x y : A) → view x ≡ view y → x ≡ y) where
  pub view-IsLawful : IsLawful {A = A} (λ x y. b.cmp (view x) (view y))
  view-IsLawful = record {
    cmp_refl = λ x. b.cmp_refl (view x);
    eq_of_cmp = λ x y h. injective x y (b.eq_of_cmp (view x) (view y) h);
    lt_of_gt = λ x y. b.lt_of_gt (view x) (view y);
    gt_of_lt = λ x y. b.gt_of_lt (view x) (view y);
    lt_trans = λ x y z. b.lt_trans (view x) (view y) (view z);
  }

  unfoldable pub view_ord : Ord A
  view_ord = record { cmp = λ x y. b.cmp (view x) (view y); lawful = view-IsLawful }
