-- ===== src/Crdt/Registers.antt =====
-- src/core/crdt.rs: the registers, `DocumentData`, `ActiveKey` and `AlsoKnownAs`, over the crate's
-- `LWWReg`.
pub mod Order
pub mod Fields
pub mod Data
use mathlib.Core.Bool.{Bool-set}
use mathlib.Core.HLevel.{is_prop→PathP}
use did_crdt.Base.{
  length, ◌==◌, ◌&&◌, all, ltb, true, refl, ℕ, ◌≡◌, Bool, List, [], ◌∷◌, Option, none, some, arith,
}
use did_crdt.Ord.{Ord, view_ord, nat_ord, pair_ord}
use did_crdt.Ord.Text.{Text, list_ord}
use did_crdt.Std.Map
use did_crdt.Std.Map.{Map}
use did_crdt.Std.Sort.{sort_dedup}
use did_crdt.Hlc.{HlcTimestamp, timestamp_ord, epoch}
use did_crdt.Crdt.Crates.{LwwReg, Lww}

-- `struct DocumentData` over the values `V` of `serde_json`.
abbrev pub DocumentData : Type 0 → Type 0
DocumentData V = Map Text (LwwReg V HlcTimestamp)

module _ {V : Type 0} (null : V) (lww : Lww V HlcTimestamp) where
  -- `entry(key).or_insert_with(..)`: the register of a key, empty at the epoch if there is none.
  unfoldable pub slot : Text → DocumentData V → LwwReg V HlcTimestamp
  slot key d = elim (Map.get d key) [ none ↦ record { val = null; marker = epoch } | some r ↦ r ]

  -- `DocumentData::set`.
  unfoldable pub set_data : Text → V → HlcTimestamp → DocumentData V → DocumentData V
  unfolding slot
  set_data key value timestamp d = Map.insert key (lww.update (slot key d) value timestamp) d

  -- `DocumentData::get`.
  unfoldable pub get_data : Text → DocumentData V → Option V
  get_data key d = elim (Map.get d key) [ none ↦ none | some r ↦ some r.val ]

  -- `DocumentData::merge`.
  unfoldable pub merge_data : DocumentData V → DocumentData V → DocumentData V
  unfolding slot
  merge_data d [] = d
  merge_data d ((key, reg) ∷ other) =
      merge_data (Map.insert key (lww.update (slot key d) reg.val reg.marker) d) other

-- `[u8; 32]`.
pub record KeyHash : Type 0 where
  pub bytes : List ℕ
  pub is_hash : (length bytes == 32 && all (λ b. ltb b 256) bytes) ≡ true

abbrev pub hash_bytes : KeyHash → List ℕ
hash_bytes h = h.bytes

pub hash_bytes_injective : (g h : KeyHash) → hash_bytes g ≡ hash_bytes h → g ≡ h
hash_bytes_injective g h p = λ i. record {
  bytes = p i;
  is_hash =
      is_prop→PathP (λ j. (length (p j) == 32 && all (λ b. ltb b 256) (p j)) ≡ true)
        (λ j. Bool-set (length (p j) == 32 && all (λ b. ltb b 256) (p j)) true) g.is_hash h.is_hash
        i;
}

instance unfoldable pub key_hash_ord : Ord KeyHash
unfolding view_ord nat_ord list_ord
key_hash_ord = view_ord hash_bytes hash_bytes_injective

-- `struct ActiveKeyMarker`.
pub record ActiveKeyMarker : Type 0 where
  pub seq : ℕ
  pub key_hash : KeyHash

abbrev pub marker_fields : ActiveKeyMarker → ℕ × KeyHash
marker_fields m = (m.seq, m.key_hash)

pub marker_fields_injective : (m n : ActiveKeyMarker) → marker_fields m ≡ marker_fields n → m ≡ n
marker_fields_injective m n h = ground arith

-- The derived order: sequence number, then hash.
instance unfoldable pub marker_ord : Ord ActiveKeyMarker
unfolding view_ord pair_ord nat_ord key_hash_ord
marker_ord = view_ord marker_fields marker_fields_injective

-- `struct ActiveKey`; BLAKE3 of a text is the parameter `hash`.
abbrev pub ActiveKey : Type 0
ActiveKey = LwwReg (Option Text) ActiveKeyMarker

-- `[0; 32]`.
abbrev pub zeros : KeyHash
zeros = record {
  bytes =
      0 ∷ 0 ∷ 0 ∷ 0 ∷ 0 ∷ 0 ∷ 0 ∷ 0 ∷ 0 ∷ 0 ∷ 0 ∷ 0 ∷ 0 ∷ 0 ∷ 0 ∷ 0 ∷ 0 ∷ 0 ∷ 0 ∷ 0 ∷ 0 ∷ 0 ∷ 0 ∷ 0
      ∷ 0 ∷ 0 ∷ 0 ∷ 0 ∷ 0 ∷ 0 ∷ 0 ∷ 0 ∷ [];
  is_hash = refl;
}

-- `ActiveKey::new`, through `Default`.
unfoldable pub new_key : ActiveKey
new_key = record { val = none; marker = record { seq = 0; key_hash = zeros } }

-- `ActiveKeyMarker::new`.
unfoldable pub new_marker : (Text → KeyHash) → ℕ → Text → ActiveKeyMarker
new_marker hash seq key_ref = record { seq = seq; key_hash = hash key_ref }

module _ (hash : Text → KeyHash) (lww : Lww (Option Text) ActiveKeyMarker) where
  -- `ActiveKey::rotate`.
  unfoldable pub rotate : ℕ → Text → ActiveKey → ActiveKey
  unfolding new_marker
  rotate seq key_ref k = lww.update k (some key_ref) (new_marker hash seq key_ref)

  -- `ActiveKey::merge`.
  unfoldable pub merge_key : ActiveKey → ActiveKey → ActiveKey
  merge_key k other = lww.merge k other

-- `ActiveKey::current`, `ActiveKey::seq`.
unfoldable pub current : ActiveKey → Option Text
current k = k.val

unfoldable pub key_seq : ActiveKey → ℕ
key_seq k = k.marker.seq

-- `struct AlsoKnownAs`.
abbrev pub AlsoKnownAs : Type 0
AlsoKnownAs = LwwReg (List Text) HlcTimestamp

-- `AlsoKnownAs::new`, through `Default`.
unfoldable pub new_aliases : AlsoKnownAs
new_aliases = record { val = []; marker = epoch }

module _ (lww : Lww (List Text) HlcTimestamp) where
  -- `AlsoKnownAs::set`.
  unfoldable pub set_aliases : List Text → HlcTimestamp → AlsoKnownAs → AlsoKnownAs
  set_aliases uris timestamp a = lww.update a (sort_dedup uris) timestamp

  -- `AlsoKnownAs::merge`.
  unfoldable pub merge_aliases : AlsoKnownAs → AlsoKnownAs → AlsoKnownAs
  merge_aliases a other = lww.update a other.val other.marker

-- `AlsoKnownAs::entries`.
unfoldable pub alias_entries : AlsoKnownAs → List Text
alias_entries a = a.val
