-- ===== src/Examples/Parts.antt =====
-- Concrete timestamps, deltas and stores, and concrete functions for what the model takes as
-- parameters.
use did_crdt.Base.{ℕ, List, [], ◌∷◌, arith, if◌then◌else◌, refl}
use did_crdt.Ord.{Ord, lt?}
use did_crdt.Ord.Text.{Text}
use did_crdt.Std.Set
use did_crdt.Std.Set.{IsAscending}
use did_crdt.Std.Set.Laws.{insert-IsAscending, union-IsAscending, contains-union}
use did_crdt.Hlc.{HlcTimestamp}
use did_crdt.Delta.{
  revoke_verification_method, set_document_data, add_verification_method, ed25519_signature2020,
  DeltaHash, SignedDelta, DeltaOp, Payload,
}
use did_crdt.Crdt.Crates.{GSet, LwwReg, Lww}
use did_crdt.Dag.{DeltaDag, new, insert}

abbrev pub at : ℕ → ℕ → HlcTimestamp
at wall_ms node_id = record { wall_ms = wall_ms; logical = 0; node_id = node_id }

-- A register that keeps the write with the greater marker.
module _ {V M : Type 0} ⦃o : Ord M⦄ where
  abbrev keep : LwwReg V M → LwwReg V M → LwwReg V M
  keep r s = if lt? r.marker s.marker then s else r

  pub register : Lww V M
  register = record {
    update = λ r v m. keep r (record { val = v; marker = m });
    merge = keep;
    update_newer = λ r v m h. ground (arith, h);
    update_stale = λ r v m h. ground (arith, h);
    merge_newer = λ r s h. ground (arith, h);
    merge_older = λ r s h. ground (arith, h, o.gt_of_lt s.marker r.marker);
    merge_same = λ r. ground (arith, o.cmp_refl r.marker);
  }

-- A grow-only set that is an ascending list.
module _ {A : Type 0} ⦃o : Ord A⦄ where
  unfoldable pub sets : GSet A
  sets = record {
    Carrier = (xs : List A) × IsAscending xs;
    new = ([], tt);
    insert = λ x s. (Set.insert x s.0, insert-IsAscending x s.0 s.1);
    contains = λ s x. Set.contains s.0 x;
    read = λ s. s.0;
    merge = λ s t. (Set.union s.0 t.0, union-IsAscending s.0 t.0 s.1);
    read_new = refl;
    read_insert = λ x s. refl;
    read_ascending = λ s. s.1;
    contains_read = λ s x. refl;
    merge_union = λ s t x. contains-union s.0 t.0 x;
  }

-- The identity of a delta is its wall time.
abbrev pub digest : Payload ℕ → DeltaHash
digest p = p.timestamp.wall_ms ∷ []

abbrev pub key : Text
key = 107 ∷ []

abbrev pub delta : ℕ → DeltaOp ℕ → List DeltaHash → SignedDelta ℕ
delta wall_ms op parents = record {
  did = 100 ∷ [];
  timestamp = at wall_ms 7;
  op = op;
  parents = parents;
  proof = record {
    suite = ed25519_signature2020;
    verification_method = key;
    created = [];
    proof_value = [];
  };
}

abbrev pub genesis : SignedDelta ℕ
genesis = delta 1 (add_verification_method key [] ed25519_signature2020 []) []

abbrev pub left : SignedDelta ℕ
left = delta 2 (set_document_data key 5) ((1 ∷ []) ∷ [])

abbrev pub right : SignedDelta ℕ
right = delta 3 (revoke_verification_method key) ((1 ∷ []) ∷ [])

-- Its parents are `left` and a delta that no store here holds.
abbrev pub orphan : SignedDelta ℕ
orphan = delta 4 (set_document_data key 6) ((2 ∷ []) ∷ (9 ∷ []) ∷ [])

abbrev pub base : DeltaDag ℕ
base = insert digest genesis new

abbrev pub with_left : DeltaDag ℕ
with_left = insert digest left base

abbrev pub with_right : DeltaDag ℕ
with_right = insert digest right base
