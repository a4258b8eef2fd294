-- ===== src/Recon/Extract.antt =====
-- src/core/recon.rs: what `extract_closure` puts into a bundle, and what the bundle does elsewhere.
use mathlib.Core.List.{reverse-append}
use did_crdt.Base.{
  ◌≡◌, ap, ◌∙◌, refl, Bool, true, ◌||◌, ◌&&◌, List, [], ◌∷◌, ◌++◌, reverse, none, some, all, arith,
  inl, inr, ◌⊎◌, ◌↔◌, Option-cases,
}
use did_crdt.Ord.{nat_ord, eq?}
use did_crdt.Ord.Text.{list_ord}
use did_crdt.Std.Set
use did_crdt.Std.Set.Laws.{contains-insert, contains-cons, contains_head, contains_tail}
use did_crdt.Error.{Error, delta_rejected, ok, err}
use did_crdt.Delta.{DeltaHash, SignedDelta, Payload, content_hash}
use did_crdt.Dag.{DeltaDag, Flow, next, stop, get, contains, rounds}
use did_crdt.Dag.Reach.{Below}
use did_crdt.Dag.Trace.{contains-trace}
use did_crdt.Dag.Walk.{trace, run, search_loop-trace}
use did_crdt.Recon.{ClosureBundle, extract_body, extract_end, extract_closure, hashes_of}

-- What lies below the target without a way through `halt`, and its edge.
abbrev pub Wanted : {V : Type 0} → DeltaDag V → DeltaHash → List DeltaHash → DeltaHash → Type 0
Wanted g target halt h = Below (Set.contains halt) g (target ∷ []) h

module _ {V : Type 0} (digest : Payload V → DeltaHash) where
  -- Every delta is held under its own hash.
  abbrev pub IsKeyed : DeltaDag V → Type 0
  IsKeyed g = (h : DeltaHash) (d : SignedDelta V) → get g h ≡ some d → content_hash digest d ≡ h

  pub hashes_of-cons :
      (d : SignedDelta V) (ds : List (SignedDelta V)) (h : DeltaHash)
      → Set.contains (hashes_of digest (d ∷ ds)) h
        ≡ (eq? h (content_hash digest d) || Set.contains (hashes_of digest ds) h)
  unfolding hashes_of
  hashes_of-cons d ds h = contains-insert (content_hash digest d) h (hashes_of digest ds)

  pub hashes_of-append :
      (ds es : List (SignedDelta V)) (h : DeltaHash)
      → Set.contains (hashes_of digest (ds ++ es)) h
        ≡ (Set.contains (hashes_of digest ds) h || Set.contains (hashes_of digest es) h)
  unfolding hashes_of Set.contains
  hashes_of-append [] es h = refl
  hashes_of-append (d ∷ ds) es h =
      ground (arith, hashes_of-append ds es h, hashes_of-cons d ds h, hashes_of-cons d (ds ++ es) h)

  pub hashes_of-reverse :
      (ds : List (SignedDelta V)) (h : DeltaHash)
      → Set.contains (hashes_of digest (reverse ds)) h ≡ Set.contains (hashes_of digest ds) h
  unfolding hashes_of Set.contains
  hashes_of-reverse [] h = refl
  hashes_of-reverse (d ∷ ds) h =
      ap (λ l. Set.contains (hashes_of digest l) h) (reverse-append (d ∷ []) ds)
      ∙ hashes_of-append (reverse ds) (d ∷ []) h
      ∙ ground (arith, hashes_of-reverse ds h, hashes_of-cons d ds h, hashes_of-cons d [] h)

  all-append :
      (P : SignedDelta V → Bool) (ds es : List (SignedDelta V))
      → all P (ds ++ es) ≡ (all P ds && all P es)
  all-append P [] es = refl
  all-append P (d ∷ ds) es = ground (arith, all-append P ds es)

  all-reverse :
      (P : SignedDelta V → Bool) (ds : List (SignedDelta V)) → all P (reverse ds) ≡ all P ds
  all-reverse P [] = refl
  all-reverse P (d ∷ ds) =
      ap (all P) (reverse-append (d ∷ []) ds)
      ∙ all-append P (reverse ds) (d ∷ [])
      ∙ ground (arith, all-reverse P ds)

  -- The bundle for `target` carries exactly what is wanted, all of which `g` holds.
  abbrev pub IsClosure : DeltaDag V → DeltaHash → List DeltaHash → ClosureBundle V → Type 0
  IsClosure g target halt b =
      (b.target ≡ target)
      × ((h : DeltaHash)
          → (Set.contains (hashes_of digest b.deltas) h ≡ true) ↔ Wanted g target halt h)
      × ((h : DeltaHash) → Wanted g target halt h → contains g h ≡ true)

  -- What holds of every delta that is wanted holds of every delta of the bundle.
  abbrev pub Inherits : DeltaDag V → DeltaHash → List DeltaHash → ClosureBundle V → Type 0
  Inherits g target halt b =
      (P : SignedDelta V → Bool)
      → ((h : DeltaHash) (d : SignedDelta V)
          → Wanted g target halt h
          → get g h ≡ some d
          → P d ≡ true)
      → all P b.deltas ≡ true

  module _ (g : DeltaDag V) (keyed : IsKeyed g) where
    -- What the loop leaves of the hashes `hs` on top of `out`: one is not held, or the deltas of all
    -- of them are on `out`.
    abbrev Extracted :
        List DeltaHash → List (SignedDelta V) → Flow (List (SignedDelta V)) Error → Type 0
    Extracted hs out r =
        ((h : DeltaHash) × (Set.contains hs h ≡ true)
          × (get g h ≡ none)
          × (r ≡ stop delta_rejected))
        ⊎ ((ds : List (SignedDelta V)) × (r ≡ next ds)
            × ((h : DeltaHash) → Set.contains hs h ≡ true → contains g h ≡ true)
            × ((h : DeltaHash)
                → Set.contains (hashes_of digest ds) h
                  ≡ (Set.contains hs h || Set.contains (hashes_of digest out) h))
            × ((P : SignedDelta V → Bool)
                → ((h : DeltaHash) (d : SignedDelta V)
                    → Set.contains hs h ≡ true
                    → get g h ≡ some d
                    → P d ≡ true)
                → all P out ≡ true
                → all P ds ≡ true))

    run-Extracted :
        (hs : List DeltaHash) (out : List (SignedDelta V))
        → Extracted hs out (run extract_body g hs out)
    unfolding run extract_body Set.contains contains
    run-Extracted [] out = inr (out, refl, λ h m. cc, λ h. refl, λ P f a. a)
    run-Extracted (h ∷ hs) out = elim (Option-cases (get g h)) [
      | inl e ↦ inl (h, contains_head h hs, e, rw (e, run, extract_body) refl)
      | inr (d, e) ↦ elim (run-Extracted hs (d ∷ out)) [
        | inl (x, m, n, q) ↦ inl (x, contains_tail x h hs m, n, rw (e, run, extract_body) q)
        | inr (ds, q, held, same, every) ↦ inr (
          ds,
          rw (e, run, extract_body) q,
          λ x m. elim (contains-cons x h hs m) [
            | inl i ↦ ground (arith, ap (get g) i, e)
            | inr l ↦ held x l
          ],
          λ x. ground (arith, same x, hashes_of-cons d out x, keyed h d e),
          λ P f a.
              every P (λ x y m. f x y (contains_tail x h hs m))
                (ground (arith, a, f h d (contains_head h hs) e)),
        )
      ]
    ]

    abbrev traced : DeltaHash → List DeltaHash → List DeltaHash
    traced target halt = trace (Set.contains halt) g (rounds g (target ∷ [])) (target ∷ []) []

    extract_closure-run :
        (target : DeltaHash) (halt : List DeltaHash)
        → extract_closure g target halt
          ≡ extract_end target (run extract_body g (traced target halt) [])
    unfolding extract_closure
    extract_closure-run target halt = ap (extract_end target) (
        search_loop-trace (Set.contains halt) extract_body g (rounds g (target ∷ [])) (target ∷ [])
          [] [])

    -- x
    pub extract_closure_lem :
        (target : DeltaHash) (halt : List DeltaHash)
        → ((extract_closure g target halt ≡ err delta_rejected)
            × ((h : DeltaHash) × Wanted g target halt h × (get g h ≡ none)))
          ⊎ ((b : ClosureBundle V) × (extract_closure g target halt ≡ ok b)
              × IsClosure g target halt b
              × Inherits g target halt b)
    unfolding extract_end hashes_of Set.contains
    extract_closure_lem target halt =
        let w = contains-trace (Set.contains halt) g (target ∷ []) in
        elim (run-Extracted (traced target halt) []) [
          | inl (h, m, n, q) ↦
              inl (extract_closure-run target halt ∙ ap (extract_end target) q, (h, (w h).0 m, n))
          | inr (ds, q, held, same, every) ↦ inr (
            record { target = target; deltas = reverse ds },
            extract_closure-run target halt ∙ ap (extract_end target) q,
            (
              refl,
              λ h. (
                λ m. (w h).0 (ground (arith, m, same h, hashes_of-reverse ds h)),
                λ b. ground (arith, (w h).1 b, same h, hashes_of-reverse ds h),
              ),
              λ h b. held h ((w h).1 b),
            ),
            λ P f. all-reverse P ds ∙ every P (λ h d m e. f h d ((w h).0 m) e) refl,
          )
        ]
