-- ===== src/Crdt/Sets.antt =====
-- src/core/crdt.rs: the grow-only sets (`VerificationMethods`, `Revocations`,
-- `RevokedVerificationMethods`) over the crate's `GSet`, and the latch `Deactivated`.
pub mod Laws
use did_crdt.Base.{ℕ, Bool, true, ◌||◌, List, ◌≡◌, any, arith}
use did_crdt.Ord.{Ord, eq?, view_ord, nat_ord, pair_ord}
use did_crdt.Ord.Text.{Text, list_ord}
use did_crdt.Delta.{SuiteType, suite_ord, VerificationRelationship, relationship_ord}
use did_crdt.Crdt.Crates.{GSet}

-- `struct VerificationMethodEntry`.
pub record VerificationMethodEntry : Type 0 where
  pub id : Text
  pub public_key_multibase : Text
  pub suite_type : SuiteType
  pub relationships : List VerificationRelationship

abbrev pub method_fields :
    VerificationMethodEntry → Text × (Text × (SuiteType × List VerificationRelationship))
method_fields e = (e.id, (e.public_key_multibase, (e.suite_type, e.relationships)))

pub method_fields_injective :
    (d e : VerificationMethodEntry) → method_fields d ≡ method_fields e → d ≡ e
method_fields_injective d e h = ground arith

-- The derived order.
instance unfoldable pub method_ord : Ord VerificationMethodEntry
unfolding view_ord pair_ord list_ord suite_ord relationship_ord
method_ord = view_ord method_fields method_fields_injective

-- `struct VerificationMethods`.
module _ (g : GSet VerificationMethodEntry) where
  abbrev pub VerificationMethods : Type 0
  VerificationMethods = g.Carrier

  -- `VerificationMethods::insert`.
  unfoldable pub insert_method :
      Text
      → Text
      → SuiteType
      → List VerificationRelationship
      → VerificationMethods
      → VerificationMethods
  insert_method id public_key_multibase suite_type relationships s =
      g.insert
        (record {
          id = id;
          public_key_multibase = public_key_multibase;
          suite_type = suite_type;
          relationships = relationships;
        })
        s

  -- `VerificationMethods::entries`.
  unfoldable pub method_entries : VerificationMethods → List VerificationMethodEntry
  method_entries s = g.read s

  -- `VerificationMethods::contains_id`.
  unfoldable pub contains_id : VerificationMethods → Text → Bool
  unfolding method_entries
  contains_id s id = any (λ e. eq? e.id id) (method_entries s)

  -- `VerificationMethods::merge`.
  unfoldable pub merge_methods : VerificationMethods → VerificationMethods → VerificationMethods
  merge_methods s other = g.merge s other

-- `struct Revocations` and `struct RevokedVerificationMethods`, which have the same methods.
module _ (g : GSet Text) where
  abbrev pub Revocations : Type 0
  Revocations = g.Carrier

  -- `Revocations::insert`, `RevokedVerificationMethods::insert`.
  unfoldable pub revoke : Text → Revocations → Revocations
  revoke id s = g.insert id s

  -- `contains`.
  unfoldable pub is_revoked : Revocations → Text → Bool
  is_revoked s id = g.contains s id

  -- `entries`.
  unfoldable pub revoked_entries : Revocations → List Text
  revoked_entries s = g.read s

  -- `merge`.
  unfoldable pub merge_revocations : Revocations → Revocations → Revocations
  merge_revocations s other = g.merge s other

-- `struct Deactivated`.
pub record Deactivated : Type 0 where
  pub flag : Bool

-- `Deactivated::set`, `Deactivated::is_set`, `Deactivated::merge`.
unfoldable pub latch : Deactivated → Deactivated
latch d = record d { flag = true }

unfoldable pub is_set : Deactivated → Bool
is_set d = d.flag

unfoldable pub merge_latch : Deactivated → Deactivated → Deactivated
merge_latch d other = record d { flag = d.flag || other.flag }
