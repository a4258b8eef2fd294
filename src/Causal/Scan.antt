-- ===== src/Causal/Scan.antt =====
-- The facts that `scan_closure` gathers, against the causal closure.
use did_crdt.Base.{
  ◌≡◌, ap, ◌∙◌, Bool, true, false, ◌||◌, List, [], ◌∷◌, reverse, none, some, arith, inl, inr, ◌↔◌,
  Bool-cases, Option-cases,
}
use did_crdt.Ord.{nat_ord}
use did_crdt.Ord.Text.{Text, list_ord, text_ord}
use did_crdt.Std.Set
use did_crdt.Std.Set.{IsAscending}
use did_crdt.Std.Set.Laws.{contains_head, contains_tail, contains-reverse}
use did_crdt.Std.Sort.{sort_dedup, contains-sort_dedup, sort_dedup-IsAscending}
use did_crdt.Delta.{SignedDelta, DeltaHash}
use did_crdt.Dag.{DeltaDag, next, get, contains, rounds, adds_key, revokes_key, deactivates}
use did_crdt.Dag.Closure.{unskipped, visited_below, contains-visited_below, absent, contains-absent}
use did_crdt.Dag.Reach.{Below}
use did_crdt.Dag.Walk.{run, search_loop-trace}
use did_crdt.Causal.{ClosureFacts, no_facts, note_op, scan_body, scan_end, scan_closure}

or_assoc : (a b c : Bool) → ((a || b) || c) ≡ (a || (b || c))
or_assoc a b c = ground arith

module _ {V : Type 0} where
  -- The facts after one delta.
  abbrev noted : Text → SignedDelta V → ClosureFacts → ClosureFacts
  noted signer d facts = record {
    signer_added = facts.signer_added || adds_key signer d;
    is_revoked = facts.is_revoked || revokes_key signer d;
    is_deactivated = facts.is_deactivated || deactivates d;
    missing = facts.missing;
  }

  note_op-noted :
      (signer : Text) (d : SignedDelta V) (facts : ClosureFacts)
      → note_op signer d facts ≡ noted signer d facts
  unfolding note_op adds_key revokes_key deactivates
  note_op-noted signer d facts = ground arith

  -- Some held delta among a list of hashes satisfies `pred`.
  pub held_any : DeltaDag V → (SignedDelta V → Bool) → List DeltaHash → Bool
  held_any g pred [] = false
  held_any g pred (h ∷ hs) = elim (get g h) [
    | none ↦ held_any g pred hs
    | some d ↦ pred d || held_any g pred hs
  ]

  -- The facts after a list of hashes.
  abbrev found_along : Text → DeltaDag V → List DeltaHash → ClosureFacts → ClosureFacts
  found_along signer g hs facts = record {
    signer_added = facts.signer_added || held_any g (adds_key signer) hs;
    is_revoked = facts.is_revoked || held_any g (revokes_key signer) hs;
    is_deactivated = facts.is_deactivated || held_any g deactivates hs;
    missing = absent g hs facts.missing;
  }

  run-scan_body :
      (signer : Text) (g : DeltaDag V) (hs : List DeltaHash) (facts : ClosureFacts)
      → run (scan_body signer) g hs facts ≡ next (found_along signer g hs facts)
  unfolding run scan_body held_any absent
  run-scan_body signer g [] facts = ground arith
  run-scan_body signer g (h ∷ hs) facts = elim (Option-cases (get g h)) [
    | inl e ↦
        rw (e, run, scan_body, held_any, absent)
          (run-scan_body signer g hs (record facts { missing = h ∷ facts.missing }))
    | inr (d, e) ↦
        rw (e, run, scan_body, held_any, absent)
          (run-scan_body signer g hs (note_op signer d facts)
            ∙ ap (λ f. next (found_along signer g hs f)) (note_op-noted signer d facts)
            ∙ λ i. next (record {
              signer_added =
                  or_assoc facts.signer_added (adds_key signer d) (held_any g (adds_key signer) hs)
                    i;
              is_revoked =
                  or_assoc facts.is_revoked (revokes_key signer d)
                    (held_any g (revokes_key signer) hs) i;
              is_deactivated =
                  or_assoc facts.is_deactivated (deactivates d) (held_any g deactivates hs) i;
              missing = absent g hs facts.missing;
            }))
  ]

  held_any_sound :
      (g : DeltaDag V) (pred : SignedDelta V → Bool) (hs : List DeltaHash)
      → held_any g pred hs ≡ true
      → (h : DeltaHash) × (d : SignedDelta V) × (Set.contains hs h ≡ true)
        × (get g h ≡ some d)
        × (pred d ≡ true)
  unfolding held_any
  held_any_sound g pred [] m = absurd (cc)
  held_any_sound g pred (h ∷ hs) m = elim (Option-cases (get g h)) [
    | inl e ↦ later (held_any_sound g pred hs (rw (e, held_any) at m))
    | inr (d, e) ↦ elim (Bool-cases (pred d)) [
      | inl p ↦ (h, d, contains_head h hs, e, p)
      | inr q ↦ later (held_any_sound g pred hs (rw (e, q, held_any) at m))
    ]
  ]
    where
      later :
          ((k : DeltaHash) × (d : SignedDelta V) × (Set.contains hs k ≡ true)
            × (get g k ≡ some d)
            × (pred d ≡ true))
          → (k : DeltaHash) × (d : SignedDelta V) × (Set.contains (h ∷ hs) k ≡ true)
            × (get g k ≡ some d)
            × (pred d ≡ true)
      later (k, d, c, e, p) = (k, d, contains_tail k h hs c, e, p)

  held_any_complete :
      (g : DeltaDag V) (pred : SignedDelta V → Bool) (hs : List DeltaHash) (h : DeltaHash)
      (d : SignedDelta V)
      → Set.contains hs h ≡ true
      → get g h ≡ some d
      → pred d ≡ true
      → held_any g pred hs ≡ true
  unfolding held_any Set.contains
  held_any_complete g pred [] h d m e p = absurd (cc)
  held_any_complete g pred (k ∷ hs) h d m e p =
      ground (arith, m, e, p, text_ord.eq_of_cmp h k, held_any_complete g pred hs h d)

  -- Some held delta in the closure of `parents` satisfies `pred`.
  abbrev pub Somewhere : DeltaDag V → List DeltaHash → (SignedDelta V → Bool) → Type 0
  Somewhere g parents pred =
      (h : DeltaHash) × (d : SignedDelta V) × Below unskipped g parents h
      × (get g h ≡ some d)
      × (pred d ≡ true)

  held_any-Somewhere :
      (g : DeltaDag V) (parents : List DeltaHash) (pred : SignedDelta V → Bool)
      → (held_any g pred (visited_below g parents) ≡ true) ↔ Somewhere g parents pred
  held_any-Somewhere g parents pred =
      let b = λ (h : DeltaHash). contains-visited_below g parents h in
      (
        λ m.
            let (h, d, c, e, p) = held_any_sound g pred (visited_below g parents) m in
            (h, d, (b h).0 c, e, p),
        λ (h, d, w, e, p). held_any_complete g pred (visited_below g parents) h d ((b h).1 w) e p,
      )

  scan_closure-facts :
      (g : DeltaDag V) (parents : List DeltaHash) (signer : Text)
      → scan_closure g parents signer ≡ record {
        signer_added = held_any g (adds_key signer) (visited_below g parents);
        is_revoked = held_any g (revokes_key signer) (visited_below g parents);
        is_deactivated = held_any g deactivates (visited_below g parents);
        missing = sort_dedup (reverse (absent g (visited_below g parents) []));
      }
  unfolding scan_closure scan_end
  scan_closure-facts g parents signer =
      let stack = reverse parents in
      ap scan_end (
        search_loop-trace unskipped (scan_body signer) g (rounds g stack) stack [] no_facts
        ∙ run-scan_body signer g (visited_below g parents) no_facts)

  -- The facts are what they say of the closure of `parents`.
  pub record IsFaithful (g : DeltaDag V) (parents : List DeltaHash) (signer : Text)
      (facts : ClosureFacts) : Type 0 where
    pub added : (facts.signer_added ≡ true) ↔ Somewhere g parents (adds_key signer)
    pub revocation : (facts.is_revoked ≡ true) ↔ Somewhere g parents (revokes_key signer)
    pub deactivation : (facts.is_deactivated ≡ true) ↔ Somewhere g parents deactivates
    pub ascending : IsAscending facts.missing
    pub absent_ones :
        (h : DeltaHash)
        → (Set.contains facts.missing h ≡ true) ↔ (Below unskipped g parents h × (get g h ≡ none))

  -- `scan_closure` gathers faithful facts: each flag is set exactly if some held delta of the
  -- closure adds the signer, revokes it or deactivates, and the missing hashes are, in ascending
  -- order, those of the closure that are not held.
  pub scan_closure-IsFaithful :
      (g : DeltaDag V) (parents : List DeltaHash) (signer : Text)
      → IsFaithful g parents signer (scan_closure g parents signer)
  unfolding Set.contains contains
  scan_closure-IsFaithful g parents signer =
      let gone = absent g (visited_below g parents) [] in
      rw (scan_closure-facts g parents signer) record {
        added = held_any-Somewhere g parents (adds_key signer);
        revocation = held_any-Somewhere g parents (revokes_key signer);
        deactivation = held_any-Somewhere g parents deactivates;
        ascending = sort_dedup-IsAscending (reverse gone);
        absent_ones = λ h.
            let c =
              contains-sort_dedup h (reverse gone)
              ∙ contains-reverse gone h
              ∙ contains-absent g (visited_below g parents) [] h in
            let b = contains-visited_below g parents h in
            (λ m. ground (arith, m, c, b.0), λ (w, e). ground (arith, b.1 w, e, c));
      }
