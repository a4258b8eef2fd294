-- ===== src/Gossip/Inbound/Retry.antt =====
-- src/sync/gossip.rs, the loop of `merge_inbound`: it ends, and what comes of each delta.
use did_crdt.Base.{
  refl, All, ◌<◌, ◌≤◌, subst, sym, ap, length, true, false, Bool-cases, ℕ, zero, suc, not, ◌||◌,
  Bool, ◌≡◌, ◌⊎◌, inl, inr, List, [], ◌∷◌, arith,
}
use did_crdt.Delta.{SignedDelta}
use did_crdt.Validate.Signature.{Crypto}
use did_crdt.Document.{Crates, Document}
use did_crdt.Document.Verified.{merge_verified_delta}
use did_crdt.Document.Verified.History.{Authentic-trans}
use did_crdt.Document.Verified.Signed.{Authentic, same}
use did_crdt.Document.Verified.Single.{merge_verified_delta-Authentic}
use did_crdt.Gossip.Inbound.{is_pending, is_nil, sweep, retry}
use did_crdt.Gossip.Inbound.Settle.{Settled, Waits, settle, Settled-later, Settled-before}

module _ {V : Type 0} (k : Crypto V) (c : Crates V) where
  -- What one round over `ds` comes to, from `doc` to the result `r`.
  record Swept (ds : List (SignedDelta V)) (doc : Document c)
      (r : Document c × (Bool × List (SignedDelta V))) : Type 1 where
    grows : Authentic k c doc r.0
    few : length r.1.1 ≤ length ds
    fewer : r.1.0 ≡ true → length r.1.1 < length ds
    stuck : r.1.0 ≡ false → (r.0 ≡ doc) × (r.1.1 ≡ ds) × All (Waits k c doc) ds
    answers : (Q : SignedDelta V → Type 0) → All Q r.1.1 → All (λ d. Settled k c doc r.0 d ⊎ Q d) ds

  Swept-Waits :
      (d : SignedDelta V) (ds : List (SignedDelta V)) (doc : Document c)
      (r : Document c × (Bool × List (SignedDelta V)))
      → Waits k c doc d
      → Swept ds doc r
      → Swept (d ∷ ds) doc (r.0, (r.1.0, d ∷ r.1.1))
  Swept-Waits d ds doc r w s = record {
    grows = s.grows;
    fewer = λ p. omega (arith, s.fewer p);
    few = omega (arith, s.few);
    stuck = λ p. ((s.stuck p).0, ap (λ l. d ∷ l) (s.stuck p).1, (w, (s.stuck p).2));
    answers = λ Q a. (inr a.0, s.answers Q a.1);
  }

  All-map :
      {P Q : SignedDelta V → Type 0}
      → ((d : SignedDelta V) → P d → Q d)
      → (ds : List (SignedDelta V)) → All P ds
      → All Q ds
  All-map f [] a = tt
  All-map f (d ∷ ds) a = (f d a.0, All-map f ds a.1)

  Swept-Settled :
      (d : SignedDelta V) (ds : List (SignedDelta V)) (doc doc' : Document c)
      (r : Document c × (Bool × List (SignedDelta V)))
      → Authentic k c doc doc'
      → Settled k c doc doc' d
      → Swept ds doc' r
      → Swept (d ∷ ds) doc (r.0, (true, r.1.1))
  Swept-Settled d ds doc doc' r g a s = record {
    grows = Authentic-trans k c doc doc' r.0 g s.grows;
    fewer = λ p. omega (arith, s.few);
    few = omega (arith, s.few);
    stuck = λ p. absurd (ground (arith, p));
    answers = λ Q b. (
      inl (Settled-later k c doc doc' r.0 d s.grows a),
      All-map
          (λ x e. elim e [ inl u ↦ inl (Settled-before k c doc doc' r.0 x g u) | inr q ↦ inr q ]) ds
          (s.answers Q b),
    );
  }

  sweep-pending :
      (d : SignedDelta V) (ds : List (SignedDelta V)) (doc : Document c)
      → (merge_verified_delta k c d doc).0 ≡ doc
      → is_pending (merge_verified_delta k c d doc).1 ≡ true
      → sweep k c (d ∷ ds) doc
        ≡ ((sweep k c ds doc).0, ((sweep k c ds doc).1.0, d ∷ (sweep k c ds doc).1.1))
  unfolding sweep
  sweep-pending d ds doc q p = rw (p, q) refl

  sweep-settled :
      (d : SignedDelta V) (ds : List (SignedDelta V)) (doc : Document c)
      → is_pending (merge_verified_delta k c d doc).1 ≡ false
      → sweep k c (d ∷ ds) doc ≡ (
        (sweep k c ds (merge_verified_delta k c d doc).0).0,
        (true, (sweep k c ds (merge_verified_delta k c d doc).0).1.1),
      )
  unfolding sweep
  sweep-settled d ds doc p = rw (p) refl

  sweep-Swept : (ds : List (SignedDelta V)) (doc : Document c) → Swept ds doc (sweep k c ds doc)
  unfolding sweep
  sweep-Swept [] doc = record {
    grows = same;
    few = omega arith;
    fewer = λ p. absurd (ground (arith, p));
    stuck = λ p. (refl, refl, tt);
    answers = λ Q a. tt;
  }
  sweep-Swept (d ∷ ds) doc = elim (settle k c d doc) [
    | inl (w, q, p) ↦
        subst (Swept (d ∷ ds) doc) (sym (sweep-pending d ds doc q p))
          (Swept-Waits d ds doc (sweep k c ds doc) w (sweep-Swept ds doc))
    | inr (a, p) ↦
        let doc' = (merge_verified_delta k c d doc).0 in
        subst (Swept (d ∷ ds) doc) (sym (sweep-settled d ds doc p)) (
          Swept-Settled d ds doc doc' (sweep k c ds doc') (merge_verified_delta-Authentic k c d doc)
            a (sweep-Swept ds doc'))
  ]

  -- What the whole loop comes to
  abbrev pub Retried : List (SignedDelta V) → Document c → Document c → Type 0
  Retried ds doc doc' =
      Authentic k c doc doc' × All (λ d. Settled k c doc doc' d ⊎ Waits k c doc' d) ds

  retry-again :
      (fuel : ℕ) (ds : List (SignedDelta V)) (doc doc' : Document c) (progressed : Bool)
      (still : List (SignedDelta V))
      → sweep k c ds doc ≡ (doc', (progressed, still))
      → (is_nil still || not progressed) ≡ false
      → retry k c (suc fuel) ds doc ≡ retry k c fuel still doc'
  unfolding retry
  retry-again fuel ds doc doc' progressed still e p = rw (e, p) refl

  retry-ends :
      (fuel : ℕ) (ds : List (SignedDelta V)) (doc doc' : Document c) (progressed : Bool)
      (still : List (SignedDelta V))
      → sweep k c ds doc ≡ (doc', (progressed, still))
      → (is_nil still || not progressed) ≡ true
      → retry k c (suc fuel) ds doc ≡ (doc', still)
  unfolding retry
  retry-ends fuel ds doc doc' progressed still e p = rw (e, p) refl

  Retried-end :
      (ds : List (SignedDelta V)) (doc : Document c)
      (r : Document c × (Bool × List (SignedDelta V)))
      → Swept ds doc r
      → (is_nil r.1.1 || not r.1.0) ≡ true
      → Retried ds doc r.0
  Retried-end ds doc (doc', (false, still)) s e = (
    s.grows,
    All-map (λ d w. inr (subst (λ x. Waits k c x d) (sym (s.stuck refl).0) w)) ds (s.stuck refl).2,
  )
  Retried-end ds doc (doc', (true, [])) s e = (s.grows, s.answers (Waits k c doc') tt)
  Retried-end ds doc (doc', (true, d ∷ still)) s e = absurd (ground (arith, e))

  Retried-on :
      (ds : List (SignedDelta V)) (doc doc' : Document c)
      (r : Document c × (Bool × List (SignedDelta V)))
      → Swept ds doc r
      → Retried r.1.1 r.0 doc'
      → Retried ds doc doc'
  Retried-on ds doc doc' r s (a, b) = (
    Authentic-trans k c doc r.0 doc' s.grows a,
    All-map
        (λ d e. elim e [
          | inl u ↦ inl (Settled-later k c doc r.0 doc' d a u)
          | inr (inl u) ↦ inl (Settled-before k c doc r.0 doc' d s.grows u)
          | inr (inr w) ↦ inr w
        ])
        ds (s.answers (λ d. Settled k c r.0 doc' d ⊎ Waits k c doc' d) b),
  )

  -- The loop over pending deltas ends within as many rounds as there are deltas: then the document
  -- comes of the old one by verified merges, and each of the deltas is held, or was refused on the
  -- way for another reason than missing parents, or still lacks parents in the final document.
  pub retry-Retried :
      (fuel : ℕ) (ds : List (SignedDelta V)) (doc : Document c)
      → length ds ≤ fuel
      → Retried ds doc (retry k c fuel ds doc).0
  unfolding retry
  retry-Retried zero [] doc h = (same, tt)
  retry-Retried zero (d ∷ ds) doc h = absurd (omega (arith, h))
  retry-Retried (suc fuel) ds doc h =
      let r = sweep k c ds doc in
      let s = sweep-Swept ds doc in
      elim (Bool-cases (is_nil r.1.1 || not r.1.0)) [
        | inl e ↦
            subst (λ x. Retried ds doc x.0) (sym (retry-ends fuel ds doc r.0 r.1.0 r.1.1 refl e))
              (Retried-end ds doc r s e)
        | inr e ↦
            subst (λ x. Retried ds doc x.0) (sym (retry-again fuel ds doc r.0 r.1.0 r.1.1 refl e))
              (Retried-on ds doc (retry k c fuel r.1.1 r.0).0 r s
                (retry-Retried fuel r.1.1 r.0 (omega (arith, h, s.fewer (ground (arith, e))))))
      ]
