-- ===== src/Recon/Exchange.antt =====
-- src/core/recon.rs: a bundle that one replica extracts, merged by another, and what a replica sends
-- to a peer.
use did_crdt.Base.{
  ◌-◌, subst, ◌≡◌, refl, Bool, true, false, ◌||◌, List, [], ◌∷◌, all, arith, inl, inr, ◌⊎◌, ◌↔◌,
  Bool-cases,
}
use did_crdt.Ord.{nat_ord}
use did_crdt.Ord.Text.{list_ord}
use did_crdt.Std.Set
use did_crdt.Std.Set.Laws.{contains_head, contains_tail}
use did_crdt.Error.{ok}
use did_crdt.Delta.{DeltaHash, Payload}
use did_crdt.Dag.{DeltaDag, contains, len}
use did_crdt.Dag.Insert.{IsValid}
use did_crdt.Dag.Reach.{root, up}
use did_crdt.Recon.{ClosureBundle, extract_closure, hashes_of, grounded, merge_bundle}
use did_crdt.Recon.Extract.{Inherits, IsKeyed, Wanted, IsClosure, extract_closure_lem}
use did_crdt.Recon.Merge.{IsClosed, merge_bundle_lem}

all_of :
    (Q : DeltaHash → Bool) (ps : List DeltaHash)
    → ((p : DeltaHash) → Set.contains ps p ≡ true → Q p ≡ true)
    → all Q ps ≡ true
all_of Q [] f = refl
all_of Q (p ∷ ps) f =
    ground (arith, f p (contains_head p ps), all_of Q ps (λ q m. f q (contains_tail q p ps m)))

module _ {V : Type 0} (digest : Payload V → DeltaHash) (g : DeltaDag V)
    (keyed : IsKeyed digest g) where
  module _ (target : DeltaHash) (halt : List DeltaHash) (b : ClosureBundle V)
      (extracted : extract_closure g target halt ≡ ok b) where
    bundle-IsClosure : IsClosure digest g target halt b × Inherits digest g target halt b
    bundle-IsClosure = elim (extract_closure_lem digest g keyed target halt) [
      | inl (q, w) ↦ absurd (cc (q, extracted))
      | inr (b', q, i, f) ↦
          subst (λ x. IsClosure digest g target halt x × Inherits digest g target halt x)
            (cc (q, extracted)) (i, f)
    ]

    bundle-grounded :
        (peer : DeltaDag V)
        → ((h : DeltaHash) → Set.contains halt h ≡ true → contains peer h ≡ true)
        → grounded digest peer (hashes_of digest b.deltas) b.deltas ≡ true
    unfolding grounded
    bundle-grounded peer has =
        bundle-IsClosure.1
          (λ d. all (λ p. contains peer p || Set.contains (hashes_of digest b.deltas) p) d.parents)
          (λ h d w e.
            all_of (λ p. contains peer p || Set.contains (hashes_of digest b.deltas) p) d.parents
              (λ p m. elim (Bool-cases (Set.contains halt p)) [
                | inl s ↦ ground (arith, has p s)
                | inr n ↦ ground (arith, (bundle-IsClosure.0.1 p).1 (up w e m n))
              ]))

    -- A bundle that `extract_closure` takes from a store with each delta under its own hash merges
    -- into any valid store that holds the parents of what it holds and all of the stop set, if the
    -- target is not in that set: the merge succeeds, and afterwards exactly what was held before,
    -- and what lies below the target without a way through the stop set, is held.
    pub merge_bundle-extract_closure :
        (peer : DeltaDag V)
        → IsValid peer
        → IsClosed peer
        → Set.contains halt target ≡ false
        → ((h : DeltaHash) → Set.contains halt h ≡ true → contains peer h ≡ true)
        → ((merge_bundle digest b peer).1 ≡ ok (len (merge_bundle digest b peer).0 - len peer))
          × ((h : DeltaHash)
              → (contains (merge_bundle digest b peer).0 h ≡ true)
                ↔ ((contains peer h ≡ true) ⊎ Wanted g target halt h))
    merge_bundle-extract_closure peer v c new has = elim (merge_bundle_lem digest b peer v c) [
      | inl (s, e, f) ↦ absurd (
          ground (
            arith,
            f,
            bundle-IsClosure.0.0,
            (bundle-IsClosure.0.1 target).1 (root (contains_head target []) new),
            bundle-grounded peer has,
          ))
      | inr (q, t, f, u, w) ↦ (
        q,
        λ h. (
          λ m. elim (Bool-cases (contains peer h)) [
            | inl old ↦ inl old
            | inr absent ↦ inr ((bundle-IsClosure.0.1 h).0 (ground (arith, m, f h, absent)))
          ],
          λ m. elim m [
            | inl old ↦ ground (arith, old, f h)
            | inr wanted ↦ ground (arith, (bundle-IsClosure.0.1 h).1 wanted, f h)
          ],
        ),
      )
    ]
