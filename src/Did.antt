-- ===== src/Did.antt =====
-- src/core/did.rs: the `did:crdt` identifiers. A BLAKE3 hash and its rendering in hexadecimal are the
-- parameter `Hashes`.
use did_crdt.Base.{
  ◌∙◌, ap, sym, ℕ, Bool, true, not, ◌||◌, ◌&&◌, ◌≡◌, refl, [], ◌∷◌, ◌++◌, Option, none, some,
  length, all, ◌==◌, leb, inl, inr, arith, ◌↔◌, if◌then◌else◌, Option-cases,
}
use did_crdt.Ord.Text.{Text}
use did_crdt.Error.{invalid_did, Result, ok, err, refuse_if}
use did_crdt.Delta.{Did}

-- `is_ascii_hexdigit`.
abbrev pub is_hexdigit : ℕ → Bool
is_hexdigit b = (leb 48 b && leb b 57) || (leb 65 b && leb b 70) || (leb 97 b && leb b 102)

-- `blake3::Hash`: `to_hex` gives 64 hexadecimal digits.
pub record Hashes : Type 1 where
  pub Hash : Type 0
  pub to_hex : Hash → Text
  pub length_hex : (h : Hash) → length (to_hex h) ≡ 64
  pub digits_hex : (h : Hash) → all is_hexdigit (to_hex h) ≡ true

-- `METHOD`, which `Did::method` returns, and `PREFIX`.
abbrev pub method : Text
method = 99 ∷ 114 ∷ 100 ∷ 116 ∷ []

abbrev pub prefix : Text
prefix = 100 ∷ 105 ∷ 100 ∷ 58 ∷ method ++ 58 ∷ []

-- `str::strip_prefix`.
unfoldable pub strip_prefix : Text → Text → Option Text
strip_prefix [] s = some s
strip_prefix (p ∷ ps) [] = none
strip_prefix (p ∷ ps) (c ∷ cs) = let rest = strip_prefix ps cs in if c == p then rest else none

-- `Did::from_creation_hash`.
unfoldable pub from_creation_hash : (s : Hashes) → s.Hash → Did
from_creation_hash s hash = prefix ++ s.to_hex hash

-- `Did::method_specific_id`; `none` is a panic.
unfoldable pub method_specific_id : Did → Option Text
unfolding strip_prefix
method_specific_id did = strip_prefix prefix did

-- `Did::from_str`, by which a DID is read from the wire too.
unfoldable pub from_str : Text → Result Did
unfolding strip_prefix
from_str s = elim (strip_prefix prefix s) [
  | none ↦ err invalid_did
  | some id ↦ refuse_if (not (length id == 64) || not (all is_hexdigit id)) invalid_did (ok s)
]

strip_prefix-append : (p s : Text) → strip_prefix p (p ++ s) ≡ some s
unfolding strip_prefix
strip_prefix-append [] s = refl
strip_prefix-append (c ∷ p) s = ground (arith, strip_prefix-append p s)

strip_prefix_sound : (p t s : Text) → strip_prefix p t ≡ some s → t ≡ p ++ s
unfolding strip_prefix
strip_prefix_sound [] t s h = ground (arith, h)
strip_prefix_sound (c ∷ p) [] s h = cc
strip_prefix_sound (c ∷ p) (d ∷ t) s h = ground (arith, h, strip_prefix_sound p t s)

from_str_of :
    (s id : Text)
    → strip_prefix prefix s ≡ some id
    → length id ≡ 64
    → all is_hexdigit id ≡ true
    → from_str s ≡ ok s
unfolding from_str
from_str_of s id e n d = rw (e, n, d, from_str)

-- A text with the prefix and 64 hexadecimal digits.
abbrev pub IsDid : Text → Type 0
IsDid s = (id : Text) × (s ≡ prefix ++ id) × (length id ≡ 64) × (all is_hexdigit id ≡ true)

-- `from_str` accepts exactly the texts that are the prefix and 64 hexadecimal digits, which are
-- returned as they are.
pub from_str_lem : (s t : Text) → (from_str s ≡ ok t) ↔ ((t ≡ s) × IsDid s)
unfolding from_str
from_str_lem s t = (
  λ h. elim (Option-cases (strip_prefix prefix s)) [
    | inl e ↦ absurd (ground (arith, e, h))
    | inr (id, e) ↦ (
      ground (arith, e, h),
      (id, strip_prefix_sound prefix s id e, ground (arith, e, h), ground (arith, e, h)),
    )
  ],
  λ (q, (id, e, n, d)).
      from_str_of s id (ap (strip_prefix prefix) e ∙ strip_prefix-append prefix id) n d
      ∙ ap ok (sym q),
)

-- A DID made from a hash is read back as itself, and its method-specific identifier is the hash in
-- hexadecimal.
pub from_str-from_creation_hash :
    (s : Hashes) (hash : s.Hash)
    → (from_str (from_creation_hash s hash) ≡ ok (from_creation_hash s hash))
      × (method_specific_id (from_creation_hash s hash) ≡ some (s.to_hex hash))
unfolding from_creation_hash method_specific_id
from_str-from_creation_hash s hash = (
  (from_str_lem (prefix ++ s.to_hex hash) (prefix ++ s.to_hex hash)).1
      (refl, (s.to_hex hash, refl, s.length_hex hash, s.digits_hex hash)),
  strip_prefix-append prefix (s.to_hex hash),
)
