-- ===== src/Causal/Stable.antt =====
-- src/core/causal.rs: decisions while the store grows, and on two replicas.
use did_crdt.Base.{
  ◌≡◌, ◌≢◌, refl, subst, Bool, true, List, [], ◌∷◌, some, arith, inl, inr, Option-cases,
}
use did_crdt.Ord.{nat_ord}
use did_crdt.Ord.Text.{Text, list_ord}
use did_crdt.Std.Set
use did_crdt.Std.Set.Laws.{contains_head}
use did_crdt.Delta.{SignedDelta, DeltaHash}
use did_crdt.Dag.{DeltaDag, get, contains, adds_key, revokes_key, deactivates}
use did_crdt.Dag.Closure.{unskipped}
use did_crdt.Dag.Reach.{Below, root, up}
use did_crdt.Admission.{
  AdmissionResult, unknown, valid, invalid, RejectReason, did_mismatch, deactivated,
  genesis_op_not_allowed, signer_not_authorised, stale_rotation, revoked, bad_signature, too_large,
}
use did_crdt.Causal.{verify_causal}
use did_crdt.Causal.Decision.{IsComplete, Claims, verify_causal-Claims}
use did_crdt.Causal.Scan.{Somewhere}

module _ {V : Type 0} (f g : DeltaDag V) where
  -- `g` holds all that `f` holds.
  abbrev pub Grows : Type 0
  Grows = (h : DeltaHash) (d : SignedDelta V) → get f h ≡ some d → get g h ≡ some d

  -- Under one hash the two hold one delta.
  abbrev pub Concur : Type 0
  Concur = (h : DeltaHash) (d e : SignedDelta V) → get f h ≡ some d → get g h ≡ some e → d ≡ e

module _ {V : Type 0} (f g : DeltaDag V) (parents : List DeltaHash) where
  held_in : (h : DeltaHash) → contains g h ≡ true → (d : SignedDelta V) × (get g h ≡ some d)
  unfolding contains
  held_in h c = elim (Option-cases (get g h)) [ inl e ↦ absurd (cc (c, e)) | inr found ↦ found ]

  -- What lies below in one lies below in the other, if that holds all of it.
  Below-Concur :
      Concur f g
      → ((h : DeltaHash) → Below unskipped g parents h → contains g h ≡ true)
      → {h : DeltaHash} → Below unskipped f parents h
      → Below unskipped g parents h
  Below-Concur same whole (root m k) = root m k
  Below-Concur same whole (up {h} {p} {d} b e m k) =
      let b' = Below-Concur same whole b in
      let (d', e') = held_in h (whole h b') in
      up b' e' (subst (λ x. Set.contains x.parents p ≡ true) (same h d d' e e') m) k

  Somewhere-Concur :
      Concur f g
      → ((h : DeltaHash) → Below unskipped g parents h → contains g h ≡ true)
      → (pred : SignedDelta V → Bool) → Somewhere f parents pred
      → Somewhere g parents pred
  Somewhere-Concur same whole pred (h, d, b, e, p) =
      let b' = Below-Concur same whole b in
      let (d', e') = held_in h (whole h b') in
      (h, d', b', e', subst (λ x. pred x ≡ true) (same h d d' e e') p)

module _ {V : Type 0} (f g : DeltaDag V) (parents : List DeltaHash) (signer : Text) where
  none_listed :
      (ms : List DeltaHash) → Claims g parents signer (unknown ms) → ¬ IsComplete g parents signer
  unfolding contains
  none_listed [] c whole = c.0 refl
  none_listed (m ∷ ms) c whole = let (b, e) = (c.2 m).0 (contains_head m ms) in cc (e, whole m b)

  -- A complete past that claims what a valid one does decides no other way.
  agree_valid :
      IsComplete g parents signer
      → ((pred : SignedDelta V → Bool) → Somewhere f parents pred → Somewhere g parents pred)
      → ((pred : SignedDelta V → Bool) → Somewhere g parents pred → Somewhere f parents pred)
      → (x : AdmissionResult) → Claims g parents signer x
      → Claims f parents signer valid
      → x ≡ valid
  agree_valid whole there back valid c v = refl
  agree_valid whole there back (unknown ms) c v = absurd (none_listed ms c whole)
  agree_valid whole there back (invalid revoked) c v = absurd (v.2 (back (revokes_key signer) c))
  agree_valid whole there back (invalid deactivated) c v = absurd (v.3 (back deactivates c.0))
  agree_valid whole there back (invalid signer_not_authorised) c v =
      absurd (c.1 (there (adds_key signer) v.1))
  agree_valid whole there back (invalid did_mismatch) c v = absurd c
  agree_valid whole there back (invalid genesis_op_not_allowed) c v = absurd c
  agree_valid whole there back (invalid stale_rotation) c v = absurd c
  agree_valid whole there back (invalid bad_signature) c v = absurd c
  agree_valid whole there back (invalid too_large) c v = absurd c

module _ {V : Type 0} (f g : DeltaDag V) (more : Grows f g) where
  Below-Grows :
      (parents : List DeltaHash) {h : DeltaHash}
      → Below unskipped f parents h
      → Below unskipped g parents h
  Below-Grows parents (root m k) = root m k
  Below-Grows parents (up {h} {d = d} b e m k) = up (Below-Grows parents b) (more h d e) m k

  Somewhere-Grows :
      (parents : List DeltaHash) (pred : SignedDelta V → Bool)
      → Somewhere f parents pred
      → Somewhere g parents pred
  Somewhere-Grows parents pred (h, d, b, e, p) = (h, d, Below-Grows parents b, more h d e, p)

  Grows-Concur : Concur g f
  Grows-Concur h d e p q = ground (arith, p, more h e q)

  IsComplete-Grows :
      (parents : List DeltaHash) (signer : Text)
      → IsComplete f parents signer
      → IsComplete g parents signer
  unfolding contains
  IsComplete-Grows parents signer whole h b =
      let (d, e) =
        held_in g f parents h (whole h (Below-Concur g f parents Grows-Concur whole b)) in
      rw (more h d e)

  module _ (parents : List DeltaHash) (signer : Text) where
    Somewhere-back :
        IsComplete f parents signer
        → (pred : SignedDelta V → Bool) → Somewhere g parents pred
        → Somewhere f parents pred
    Somewhere-back whole = Somewhere-Concur g f parents Grows-Concur whole

    still_valid :
        (x : AdmissionResult)
        → Claims g parents signer x
        → Claims f parents signer valid
        → x ≡ valid
    still_valid x c v =
        agree_valid f g parents signer (IsComplete-Grows parents signer v.0)
          (Somewhere-Grows parents) (Somewhere-back v.0) x c v

    -- An invalid delta is neither valid nor undecided later.
    not_valid :
        (r : RejectReason) → Claims f parents signer (invalid r) → ¬ Claims g parents signer valid
    not_valid revoked v c = c.2 (Somewhere-Grows parents (revokes_key signer) v)
    not_valid deactivated v c = c.3 (Somewhere-Grows parents deactivates v.0)
    not_valid signer_not_authorised v c = v.1 (Somewhere-back v.0 (adds_key signer) c.1)
    not_valid did_mismatch v c = v
    not_valid genesis_op_not_allowed v c = v
    not_valid stale_rotation v c = v
    not_valid bad_signature v c = v
    not_valid too_large v c = v

    not_unknown :
        (r : RejectReason) (ms : List DeltaHash)
        → Claims f parents signer (invalid r)
        → ¬ Claims g parents signer (unknown ms)
    not_unknown revoked ms v c = c.3 (Somewhere-Grows parents (revokes_key signer) v)
    not_unknown deactivated ms v c = c.4 (Somewhere-Grows parents deactivates v.0)
    not_unknown signer_not_authorised ms v c =
        none_listed f g parents signer ms c (IsComplete-Grows parents signer v.0)
    not_unknown did_mismatch ms v c = v
    not_unknown genesis_op_not_allowed ms v c = v
    not_unknown stale_rotation ms v c = v
    not_unknown bad_signature ms v c = v
    not_unknown too_large ms v c = v

    still_invalid :
        (r : RejectReason) (x : AdmissionResult)
        → Claims g parents signer x
        → Claims f parents signer (invalid r)
        → (s : RejectReason) × (x ≡ invalid s)
    still_invalid r valid c v = absurd (not_valid r v c)
    still_invalid r (unknown ms) c v = absurd (not_unknown r ms v c)
    still_invalid r (invalid s) c v = (s, refl)

-- A delta with parents that is valid stays valid, whatever further deltas the store comes to hold.
pub verify_causal-keeps_valid :
    {V : Type 0} (f g : DeltaDag V)
    → Grows f g
    → (d : SignedDelta V) → d.parents ≢ []
    → verify_causal d f ≡ valid
    → verify_causal d g ≡ valid
verify_causal-keeps_valid f g more d ne e =
    let who = d.proof.verification_method in
    still_valid f g more d.parents who (verify_causal d g) (verify_causal-Claims d g ne)
      (subst (Claims f d.parents who) e (verify_causal-Claims d f ne))

-- A delta with parents that is invalid stays invalid, though its reason may change, whatever
-- further deltas the store comes to hold.
pub verify_causal-keeps_invalid :
    {V : Type 0} (f g : DeltaDag V)
    → Grows f g
    → (d : SignedDelta V) → d.parents ≢ []
    → (r : RejectReason) → verify_causal d f ≡ invalid r
    → (s : RejectReason) × (verify_causal d g ≡ invalid s)
verify_causal-keeps_invalid f g more d ne r e =
    let who = d.proof.verification_method in
    still_invalid f g more d.parents who r (verify_causal d g) (verify_causal-Claims d g ne)
      (subst (Claims f d.parents who) e (verify_causal-Claims d f ne))

-- If two replicas hold the whole causal past of a delta with parents, and hold the same delta
-- wherever both hold a hash, then a delta that is valid to the one is valid to the other.
pub verify_causal_agree :
    {V : Type 0} (f g : DeltaDag V)
    → Concur f g
    → Concur g f
    → (d : SignedDelta V) → d.parents ≢ []
    → IsComplete f d.parents d.proof.verification_method
    → IsComplete g d.parents d.proof.verification_method
    → verify_causal d f ≡ valid
    → verify_causal d g ≡ valid
verify_causal_agree f g fg gf d ne wf wg e =
    let who = d.proof.verification_method in
    let there = λ (pred : SignedDelta _ → Bool). Somewhere-Concur f g d.parents fg wg pred in
    let back = λ (pred : SignedDelta _ → Bool). Somewhere-Concur g f d.parents gf wf pred in
    agree_valid f g d.parents who wg there back (verify_causal d g) (verify_causal-Claims d g ne)
      (subst (Claims f d.parents who) e (verify_causal-Claims d f ne))
