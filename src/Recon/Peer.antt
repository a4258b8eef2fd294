-- ===== src/Recon/Peer.antt =====
-- src/core/recon.rs, `deltas_for_peer`: what a replica sends to a peer.
use did_crdt.Base.{
  reverse, sym, ◌∙◌, subst, Bool-cases, ◌↔◌, ◌≡◌, refl, true, ◌||◌, List, [], ◌∷◌, none, arith, inl,
  inr, ◌⊎◌, if◌then◌else◌,
}
use did_crdt.Ord.{nat_ord}
use did_crdt.Ord.Text.{list_ord, text_ord}
use did_crdt.Std.Set
use did_crdt.Std.Set.Laws.{contains-cons, contains_head, contains_tail, contains-insert}
use did_crdt.Error.{ok, err, Result, delta_rejected}
use did_crdt.Delta.{DeltaHash, SignedDelta, Payload, content_hash}
use did_crdt.Dag.{DeltaDag, get, contains}
use did_crdt.Dag.Reach.{up, Below-mono, root, Below}
use did_crdt.Recon.{push_heads, deltas_for_peer, ClosureBundle, hashes_of, push_new}
use did_crdt.Recon.Extract.{
  Wanted, extract_closure_lem, IsClosure, IsKeyed, hashes_of-reverse, hashes_of-cons,
}

module _ {V : Type 0} (g : DeltaDag V) (peer_frontier : List DeltaHash) where
  -- What lies below some heads without a way through the frontier of the peer.
  abbrev pub Lacking : List DeltaHash → DeltaHash → Type 0
  Lacking heads h = Below (Set.contains peer_frontier) g heads h

  Lacking-nil : (h : DeltaHash) → ¬ Lacking [] h
  unfolding Set.contains
  Lacking-nil h (root m k) = cc
  Lacking-nil h (up {h = x} b e m k) = Lacking-nil x b

  Lacking-cons :
      (head : DeltaHash) (heads : List DeltaHash) (h : DeltaHash)
      → Lacking (head ∷ heads) h
      → Wanted g head peer_frontier h ⊎ Lacking heads h
  Lacking-cons head heads h (root m k) = elim (contains-cons h head heads m) [
    | inl e ↦
        inl
          (root (subst (λ x. Set.contains (head ∷ []) x ≡ true) (sym e) (contains_head head [])) k)
    | inr l ↦ inr (root l k)
  ]
  Lacking-cons head heads h (up {h = x} b e m k) = elim (Lacking-cons head heads x b) [
    | inl w ↦ inl (up w e m k)
    | inr l ↦ inr (up l e m k)
  ]

  Lacking-head :
      (head : DeltaHash) (heads : List DeltaHash) (h : DeltaHash)
      → Wanted g head peer_frontier h
      → Lacking (head ∷ heads) h
  unfolding Set.contains
  Lacking-head head heads h =
      Below-mono (Set.contains peer_frontier) g (head ∷ []) (head ∷ heads)
        (λ x m k. root (ground (arith, m)) k)

  Lacking-tail :
      (head : DeltaHash) (heads : List DeltaHash) (h : DeltaHash)
      → Lacking heads h
      → Lacking (head ∷ heads) h
  Lacking-tail head heads h =
      Below-mono (Set.contains peer_frontier) g heads (head ∷ heads)
        (λ x m k. root (contains_tail x head heads m) k)

  -- Nothing is wanted below a head that the peer names.
  Wanted-halted :
      (head h : DeltaHash)
      → Set.contains peer_frontier head ≡ true
      → ¬ Wanted g head peer_frontier h
  unfolding Set.contains
  Wanted-halted head h s (root m k) = ground (arith, s, m, k, text_ord.eq_of_cmp h head)
  Wanted-halted head h s (up {h = x} b e m k) = Wanted-halted head x s b

module _ {V : Type 0} (digest : Payload V → DeltaHash) where
  nothing : (h : DeltaHash) → ¬ (Set.contains [] h ≡ true)
  unfolding Set.contains
  nothing h m = cc

  -- `seen` has the hashes of `out`.
  abbrev Tracks : List DeltaHash → List (SignedDelta V) → Type 0
  Tracks seen out = (h : DeltaHash) → Set.contains seen h ≡ Set.contains (hashes_of digest out) h

  Tracks-push :
      (d : SignedDelta V) (seen : List DeltaHash) (out : List (SignedDelta V))
      → Tracks seen out
      → Tracks
          (Set.insert (content_hash digest d) seen)
          (if Set.contains seen (content_hash digest d) then out else d ∷ out)
  Tracks-push d seen out t h = ground (
    arith,
    t h,
    t (content_hash digest d),
    hashes_of-cons digest d out h,
    contains-insert (content_hash digest d) h seen,
    text_ord.eq_of_cmp h (content_hash digest d),
  )

  push_new-Tracks :
      (ds : List (SignedDelta V)) (seen : List DeltaHash) (out : List (SignedDelta V))
      → Tracks seen out
      → Tracks (push_new digest ds seen out).0 (push_new digest ds seen out).1
        × ((h : DeltaHash)
            → Set.contains (push_new digest ds seen out).0 h
              ≡ (Set.contains seen h || Set.contains (hashes_of digest ds) h))
  unfolding push_new hashes_of Set.contains
  push_new-Tracks [] seen out t = (t, λ h. ground arith)
  push_new-Tracks (d ∷ ds) seen out t =
      let h' = content_hash digest d in
      let (u, w) =
        push_new-Tracks ds (Set.insert h' seen) (if Set.contains seen h' then out else d ∷ out)
          (Tracks-push d seen out t) in
      (u, λ h. ground (arith, w h, contains-insert h' h seen, hashes_of-cons digest d ds h))

  module _ (g : DeltaDag V) (peer_frontier : List DeltaHash) where
    -- What the loop over the heads comes to.
    abbrev Sent : List DeltaHash → List (SignedDelta V) → Result (List (SignedDelta V)) → Type 0
    Sent heads out r =
        ((r ≡ err delta_rejected)
          × ((h : DeltaHash) × Lacking g peer_frontier heads h × (get g h ≡ none)))
        ⊎ ((ds : List (SignedDelta V)) × (r ≡ ok ds)
            × ((h : DeltaHash)
                → (Set.contains (hashes_of digest ds) h ≡ true) ↔ (
                    (Set.contains (hashes_of digest out) h ≡ true)
                    ⊎ Lacking g peer_frontier heads h))
            × ((h : DeltaHash) → Lacking g peer_frontier heads h → contains g h ≡ true))

    Sent-halted :
        (head : DeltaHash) (heads : List DeltaHash) (out : List (SignedDelta V))
        (r : Result (List (SignedDelta V)))
        → Set.contains peer_frontier head ≡ true
        → Sent heads out r
        → Sent (head ∷ heads) out r
    Sent-halted head heads out r s (inl (q, (h, l, n))) =
        inl (q, (h, Lacking-tail g peer_frontier head heads h l, n))
    Sent-halted head heads out r s (inr (ds, q, same, held)) =
        let old : ((h : DeltaHash)
            → Lacking g peer_frontier (head ∷ heads) h
            → Lacking g peer_frontier heads h) =
          λ h l. elim (Lacking-cons g peer_frontier head heads h l) [
            | inl w ↦ absurd (Wanted-halted g peer_frontier head h s w)
            | inr b ↦ b
          ] in
        inr (
          ds,
          q,
          λ h. (
            λ m. elim ((same h).0 m) [
              | inl o ↦ inl o
              | inr l ↦ inr (Lacking-tail g peer_frontier head heads h l)
            ],
            λ m. elim m [ inl o ↦ (same h).1 (inl o) | inr l ↦ (same h).1 (inr (old h l)) ],
          ),
          λ h l. held h (old h l),
        )

    Sent-more :
        (head : DeltaHash) (heads : List DeltaHash) (out out' : List (SignedDelta V))
        (b : ClosureBundle V) (r : Result (List (SignedDelta V)))
        → IsClosure digest g head peer_frontier b
        → ((h : DeltaHash)
            → Set.contains (hashes_of digest out') h ≡ (
                Set.contains (hashes_of digest out) h
                || Set.contains (hashes_of digest b.deltas) h))
        → Sent heads out' r
        → Sent (head ∷ heads) out r
    Sent-more head heads out out' b r i u (inl (q, (h, l, n))) =
        inl (q, (h, Lacking-tail g peer_frontier head heads h l, n))
    Sent-more head heads out out' b r i u (inr (ds, q, same, held)) = inr (
      ds,
      q,
      λ h. (
        λ m. elim ((same h).0 m) [
          | inl o ↦ elim (Bool-cases (Set.contains (hashes_of digest out) h)) [
            | inl old ↦ inl old
            | inr new ↦ inr (
                Lacking-head g peer_frontier head heads h ((i.1 h).0 (ground (arith, o, u h, new))))
          ]
          | inr l ↦ inr (Lacking-tail g peer_frontier head heads h l)
        ],
        λ m. elim m [
          | inl o ↦ (same h).1 (inl (ground (arith, o, u h)))
          | inr l ↦ elim (Lacking-cons g peer_frontier head heads h l) [
            | inl w ↦ (same h).1 (inl (ground (arith, (i.1 h).1 w, u h)))
            | inr k ↦ (same h).1 (inr k)
          ]
        ],
      ),
      λ h l. elim (Lacking-cons g peer_frontier head heads h l) [
        | inl w ↦ i.2 h w
        | inr k ↦ held h k
      ],
    )

    module _ (keyed : IsKeyed digest g) where
      push_heads-Sent :
          (heads seen : List DeltaHash) (out : List (SignedDelta V))
          → Tracks seen out
          → Sent heads out (push_heads digest g peer_frontier heads seen out)
      unfolding push_heads
      push_heads-Sent [] seen out t = inr (
        reverse out,
        refl,
        λ h. (
          λ m. inl (sym (hashes_of-reverse digest out h) ∙ m),
          λ m. elim m [
            | inl o ↦ hashes_of-reverse digest out h ∙ o
            | inr b ↦ absurd (Lacking-nil g peer_frontier h b)
          ],
        ),
        λ h b. absurd (Lacking-nil g peer_frontier h b),
      )
      push_heads-Sent (head ∷ heads) seen out t =
          elim (Bool-cases (Set.contains peer_frontier head)) [
            | inl s ↦
                rw (s, push_heads)
                  (Sent-halted head heads out (push_heads digest g peer_frontier heads seen out) s
                    (push_heads-Sent heads seen out t))
            | inr n ↦ elim (extract_closure_lem digest g keyed head peer_frontier) [
              | inl (q, (h, w, e)) ↦
                  inl (
                    rw (n, q, push_heads) refl,
                    (h, Lacking-head g peer_frontier head heads h w, e),
                  )
              | inr (b, q, i, f) ↦
                  let (u, w) = push_new-Tracks b.deltas seen out t in
                  let (seen', out') = push_new digest b.deltas seen out in
                  rw (n, q, push_heads)
                    (Sent-more head heads out out' b
                      (push_heads digest g peer_frontier heads seen' out') i
                      (λ h. ground (arith, u h, w h, t h)) (push_heads-Sent heads seen' out' u))
            ]
          ]

      -- x
      pub deltas_for_peer_lem :
          ((deltas_for_peer digest g peer_frontier ≡ err delta_rejected)
            × ((h : DeltaHash) × Lacking g peer_frontier g.frontier h × (get g h ≡ none)))
          ⊎ ((ds : List (SignedDelta V)) × (deltas_for_peer digest g peer_frontier ≡ ok ds)
              × ((h : DeltaHash)
                  → (Set.contains (hashes_of digest ds) h ≡ true)
                    ↔ Lacking g peer_frontier g.frontier h))
      unfolding deltas_for_peer hashes_of
      deltas_for_peer_lem = elim (push_heads-Sent g.frontier [] [] (λ h. refl)) [
        | inl e ↦ inl e
        | inr (ds, q, same, held) ↦ inr (
          ds,
          q,
          λ h. (
            λ m. elim ((same h).0 m) [ inl o ↦ absurd (nothing h o) | inr l ↦ l ],
            λ l. (same h).1 (inr l),
          ),
        )
      ]
