-- ===== src/Causal/Decision.antt =====
-- src/core/causal.rs: what each result of `verify_causal` says of the causal past of a delta that
-- has parents.
use did_crdt.Base.{
  List-cases, ◌≡◌, ◌≢◌, subst, true, List, [], ◌∷◌, none, inl, inr, ◌↔◌, Bool-cases, Option-cases,
}
use did_crdt.Ord.{nat_ord}
use did_crdt.Ord.Text.{Text, list_ord}
use did_crdt.Std.Set
use did_crdt.Std.Set.{IsAscending}
use did_crdt.Delta.{SignedDelta, DeltaHash}
use did_crdt.Dag.{DeltaDag, get, contains, adds_key, revokes_key, deactivates}
use did_crdt.Dag.Closure.{unskipped}
use did_crdt.Dag.Reach.{Below}
use did_crdt.Admission.{
  AdmissionResult, unknown, valid, invalid, did_mismatch, deactivated, genesis_op_not_allowed,
  signer_not_authorised, stale_rotation, revoked, bad_signature, too_large,
}
use did_crdt.Causal.{ClosureFacts, scan_closure, decide_facts, verify_causal}
use did_crdt.Causal.Scan.{Somewhere, IsFaithful, scan_closure-IsFaithful}

module _ {V : Type 0} (g : DeltaDag V) (parents : List DeltaHash) (signer : Text) where
  -- Every hash of the closure is held.
  abbrev pub IsComplete : Type 0
  IsComplete = (h : DeltaHash) → Below unskipped g parents h → contains g h ≡ true

  -- What each result claims of the closure of `parents`.
  abbrev pub Claims : AdmissionResult → Type 0
  Claims valid =
      IsComplete
      × Somewhere g parents (adds_key signer)
      × (¬ Somewhere g parents (revokes_key signer))
      × (¬ Somewhere g parents deactivates)
  Claims (unknown ms) =
      (ms ≢ [])
      × IsAscending ms
      × ((h : DeltaHash)
          → (Set.contains ms h ≡ true) ↔ (Below unskipped g parents h × (get g h ≡ none)))
      × (¬ Somewhere g parents (revokes_key signer))
      × (¬ Somewhere g parents deactivates)
  Claims (invalid revoked) = Somewhere g parents (revokes_key signer)
  Claims (invalid deactivated) =
      Somewhere g parents deactivates × (¬ Somewhere g parents (revokes_key signer))
  Claims (invalid signer_not_authorised) =
      IsComplete
      × (¬ Somewhere g parents (adds_key signer))
      × (¬ Somewhere g parents (revokes_key signer))
      × (¬ Somewhere g parents deactivates)
  Claims (invalid did_mismatch) = ⊥
  Claims (invalid genesis_op_not_allowed) = ⊥
  Claims (invalid stale_rotation) = ⊥
  Claims (invalid bad_signature) = ⊥
  Claims (invalid too_large) = ⊥

  complete_of_empty :
      (facts : ClosureFacts) → IsFaithful g parents signer facts → facts.missing ≡ [] → IsComplete
  unfolding contains Set.contains
  complete_of_empty facts f e h b = elim (Option-cases (get g h)) [
    | inl gone ↦ absurd (cc (e, (f.absent_ones h).1 (b, gone)))
    | inr (d, held) ↦ rw held
  ]

  abbrev Absent : List DeltaHash → DeltaHash → Type 0
  Absent ms h = (Set.contains ms h ≡ true) ↔ (Below unskipped g parents h × (get g h ≡ none))

  decide_facts-Claims :
      (facts : ClosureFacts) → IsFaithful g parents signer facts → Claims (decide_facts facts)
  unfolding decide_facts
  decide_facts-Claims facts f = elim (Bool-cases facts.is_revoked) [
    | inl r ↦ rw (r, decide_facts) (f.revocation.0 r)
    | inr nr ↦
        let clean : ¬ Somewhere g parents (revokes_key signer) = λ w. cc (nr, f.revocation.1 w) in
        elim (Bool-cases facts.is_deactivated) [
          | inl d ↦ rw (nr, d, decide_facts) (f.deactivation.0 d, clean)
          | inr nd ↦
              let live : ¬ Somewhere g parents deactivates = λ w. cc (nd, f.deactivation.1 w) in
              elim (List-cases facts.missing) [
                | inr (m, ms, e) ↦
                    rw (nr, nd, e, decide_facts)
                      (
                        λ z. cc,
                        subst (λ l. IsAscending l) e f.ascending,
                        λ h. subst (λ l. Absent l h) e (f.absent_ones h),
                        clean,
                        live,
                      )
                | inl e ↦
                    let whole = complete_of_empty facts f e in
                    elim (Bool-cases facts.signer_added) [
                      | inl a ↦ rw (nr, nd, e, a, decide_facts) (whole, f.added.0 a, clean, live)
                      | inr na ↦
                          rw (nr, nd, e, na, decide_facts)
                            (whole, λ w. cc (na, f.added.1 w), clean, live)
                    ]
              ]
        ]
  ]

-- A decision about a delta that has parents says what it should of the closure of those parents:
-- `valid`, that it is all held, adds the signer, and neither revokes it nor deactivates; `unknown`,
-- that what is held of it neither revokes the signer nor deactivates and that the listed hashes,
-- ascending and at least one, are exactly those not held; `invalid revoked`, that a held delta of
-- it revokes the signer; `invalid deactivated`, that one deactivates and none revokes; `invalid
-- signer_not_authorised`, that all of it is held and nothing there adds the signer, revokes it or
-- deactivates. No other reason occurs.
pub verify_causal-Claims :
    {V : Type 0} (d : SignedDelta V) (g : DeltaDag V)
    → d.parents ≢ []
    → Claims g d.parents d.proof.verification_method (verify_causal d g)
unfolding verify_causal
verify_causal-Claims d g ne = elim (List-cases d.parents) [
  | inl e ↦ absurd (ne e)
  | inr (p, ps, e) ↦
      rw (e, verify_causal)
        (decide_facts-Claims g (p ∷ ps) d.proof.verification_method
          (scan_closure g (p ∷ ps) d.proof.verification_method)
          (scan_closure-IsFaithful g (p ∷ ps) d.proof.verification_method))
]
