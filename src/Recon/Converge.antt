-- ===== src/Recon/Converge.antt =====
-- src/core/recon.rs: after an exchange of frontiers nothing is missing.
use did_crdt.Base.{
  ◌&&◌, not, Bool_ext, subst, refl, ◌≡◌, ap, sym, ◌∙◌, true, false, ◌||◌, List, some, arith, inl,
  inr, ◌⊎◌, Bool-cases, Option-cases,
}
use did_crdt.Ord.{eq?, nat_ord}
use did_crdt.Ord.Text.{text_ord, list_ord}
use did_crdt.Std.Set
use did_crdt.Error.{ok}
use did_crdt.Delta.{content_hash, DeltaHash, SignedDelta, Payload}
use did_crdt.Dag.{insert, DeltaDag, get, contains, new}
use did_crdt.Dag.Closure.{unskipped}
use did_crdt.Dag.Insert.{
  referenced-insert, insert-IsValid, get-insert_delta, contains-insert_delta, IsValid,
}
use did_crdt.Dag.Reach.{Below, root, up}
use did_crdt.Recon.{hashes_of, deltas_for_peer}
use did_crdt.Recon.Extract.{IsKeyed}
use did_crdt.Recon.Merge.{IsClosed}
use did_crdt.Recon.Peer.{Lacking, deltas_for_peer_lem}

module _ {V : Type 0} where
  -- Everything that is held lies below the frontier.
  abbrev pub IsRooted : DeltaDag V → Type 0
  IsRooted g = (h : DeltaHash) → contains g h ≡ true → Below unskipped g g.frontier h

  -- Two stores hold the same delta where both hold a hash.
  abbrev pub Agrees : DeltaDag V → DeltaDag V → Type 0
  Agrees g p = (h : DeltaHash) (d e : SignedDelta V) → get g h ≡ some d → get p h ≡ some e → d ≡ e

  -- What is below the frontier of `g` is held by the peer, or `g` takes it to be lacking there.
  Below-Lacking :
      (g p : DeltaDag V)
      → IsValid p
      → IsClosed p
      → Agrees g p
      → (h : DeltaHash) → Below unskipped g g.frontier h
      → (contains p h ≡ true) ⊎ Lacking g p.frontier g.frontier h
  unfolding contains
  Below-Lacking g p v c a h (root m k) = elim (Bool-cases (Set.contains p.frontier h)) [
    | inl s ↦ inl (ground (arith, s, v.frontier_leaves h))
    | inr n ↦ inr (root m n)
  ]
  Below-Lacking g p v c a h (up {h = x} {d = d} b e m k) = elim (Below-Lacking g p v c a x b) [
    | inl held ↦ elim (Option-cases (get p x)) [
      | inl gone ↦ absurd (ground (arith, held, gone))
      | inr (f, there) ↦
          inl (c x f h there (ap (λ z. Set.contains z.parents h) (sym (a x d f e there)) ∙ m))
    ]
    | inr l ↦ elim (Bool-cases (Set.contains p.frontier h)) [
      | inl s ↦ inl (ground (arith, s, v.frontier_leaves h))
      | inr n ↦ inr (up l e m n)
    ]
  ]

  Lacking-held :
      (g p : DeltaDag V)
      → IsValid g
      → IsClosed g
      → (h : DeltaHash) → Lacking g p.frontier g.frontier h
      → contains g h ≡ true
  unfolding contains
  Lacking-held g p v c h (root m k) = ground (arith, m, v.frontier_leaves h)
  Lacking-held g p v c h (up {h = x} {d = d} b e m k) = c x d h e m

module _ {V : Type 0} (digest : Payload V → DeltaHash) where
  -- What an insertion keeps, where the parents of the new delta are held and no delta has it as a
  -- parent yet.
  pub insert-IsKeyed :
      (d : SignedDelta V) (g : DeltaDag V) → IsKeyed digest g → IsKeyed digest (insert digest d g)
  insert-IsKeyed d g k h e f =
      ground (
        arith,
        f,
        get-insert_delta digest d g h,
        k h e,
        text_ord.eq_of_cmp h (content_hash digest d),
      )

  pub insert-Agrees :
      (d : SignedDelta V) (g : DeltaDag V)
      → contains g (content_hash digest d) ≡ false
      → Agrees (insert digest d g) g
  unfolding contains
  insert-Agrees d g new h x y f e = ground (
    arith,
    new,
    f,
    e,
    get-insert_delta digest d g h,
    text_ord.eq_of_cmp h (content_hash digest d),
  )

  pub insert-IsClosed :
      (d : SignedDelta V) (g : DeltaDag V)
      → IsClosed g
      → ((p : DeltaHash) → Set.contains d.parents p ≡ true → contains g p ≡ true)
      → IsClosed (insert digest d g)
  insert-IsClosed d g c held h e p f m = ground (
    arith,
    f,
    m,
    get-insert_delta digest d g h,
    contains-insert_delta digest d g p,
    c h e p,
    held p,
  )

  module _ (d : SignedDelta V) (g : DeltaDag V) (v : IsValid g)
      (new : contains g (content_hash digest d) ≡ false)
      (childless : Set.contains g.referenced (content_hash digest d) ≡ false)
      (held : (p : DeltaHash) → Set.contains d.parents p ≡ true → contains g p ≡ true) where
    abbrev grown : DeltaDag V
    grown = insert digest d g

    frontier_grown :
        (h : DeltaHash)
        → Set.contains grown.frontier h ≡ (
            (eq? h (content_hash digest d) || contains g h)
            && not (Set.contains d.parents h || Set.contains g.referenced h))
    frontier_grown h = ground (
      arith,
      new,
      (insert-IsValid digest d g v).frontier_leaves h,
      contains-insert_delta digest d g h,
      referenced-insert digest d g h,
    )

    self_held : get grown (content_hash digest d) ≡ some d
    self_held = ground (
      arith,
      new,
      get-insert_delta digest d g (content_hash digest d),
      text_ord.cmp_refl (content_hash digest d),
    )

    leaf : Below unskipped grown grown.frontier (content_hash digest d)
    leaf =
        root
          (ground (
            arith,
            new,
            childless,
            frontier_grown (content_hash digest d),
            held (content_hash digest d),
            text_ord.cmp_refl (content_hash digest d),
          ))
          refl

    holds : (h : DeltaHash) (e : SignedDelta V) → get g h ≡ some e → contains g h ≡ true
    unfolding contains
    holds h e f = ground (arith, f)

    get-grown : (h : DeltaHash) (e : SignedDelta V) → get g h ≡ some e → get grown h ≡ some e
    get-grown h e f = ground (
      arith,
      new,
      f,
      holds h e f,
      get-insert_delta digest d g h,
      text_ord.eq_of_cmp h (content_hash digest d),
    )

    Below-grown :
        (h : DeltaHash) → Below unskipped g g.frontier h → Below unskipped grown grown.frontier h
    Below-grown h (root m k) = elim (Bool-cases (Set.contains d.parents h)) [
      | inl parent ↦ up {d = d} leaf self_held parent refl
      | inr other ↦ root (ground (arith, m, other, frontier_grown h, v.frontier_leaves h)) refl
    ]
    Below-grown h (up {h = x} {d = e} b f m k) = up (Below-grown x b) (get-grown x e f) m k

    pub insert-IsRooted : IsRooted g → IsRooted grown
    insert-IsRooted r h m = elim (Bool-cases (contains g h)) [
      | inl old ↦ Below-grown h (r h old)
      | inr fresh ↦
          subst (Below unskipped grown grown.frontier)
            (sym (
              text_ord.eq_of_cmp h (content_hash digest d)
                (ground (arith, m, fresh, contains-insert_delta digest d g h))))
            leaf
    ]

  -- Between two valid stores that hold the parents of what they hold and the same delta wherever
  -- both hold a hash, the one with each delta under its own hash and everything below its frontier,
  -- `deltas_for_peer` on the frontier of the other does not fail, and what the other holds and what
  -- is sent make up together what either of them holds.
  pub deltas_for_peer_complete :
      (g p : DeltaDag V)
      → IsValid g
      → IsClosed g
      → IsKeyed digest g
      → IsRooted g
      → IsValid p
      → IsClosed p
      → Agrees g p
      → (ds : List (SignedDelta V)) × (deltas_for_peer digest g p.frontier ≡ ok ds)
        × ((h : DeltaHash)
            → (contains p h || Set.contains (hashes_of digest ds) h)
              ≡ (contains p h || contains g h))
  unfolding contains
  deltas_for_peer_complete g p vg cg keyed rooted vp cp a =
      elim (deltas_for_peer_lem digest g p.frontier keyed) [
        | inl (q, (h, l, n)) ↦ absurd (ground (arith, n, Lacking-held g p vg cg h l))
        | inr (ds, q, same) ↦ (
          ds,
          q,
          λ h.
              Bool_ext (contains p h || Set.contains (hashes_of digest ds) h)
                (contains p h || contains g h)
                (λ m. elim (Bool-cases (contains p h)) [
                  | inl old ↦ ground (arith, old)
                  | inr new ↦
                      ground (arith, Lacking-held g p vg cg h ((same h).0 (ground (arith, m, new))))
                ])
                (λ m. elim (Bool-cases (contains p h)) [
                  | inl old ↦ ground (arith, old)
                  | inr new ↦
                      elim (Below-Lacking g p vp cp a h (rooted h (ground (arith, m, new)))) [
                        | inl held ↦ ground (arith, held)
                        | inr l ↦ ground (arith, (same h).1 l)
                      ]
                ]),
        )
      ]
