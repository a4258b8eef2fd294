-- ===== src/Validate/Alias.antt =====
-- src/core/validate.rs: the alias sets that are recognised, as a language.
use did_crdt.Base.{
  inr, inl, ℕ, ◌≤◌, ◌≡◌, ◌≢◌, refl, ap, ◌∙◌, true, List, [], ◌∷◌, ◌++◌, some, all, length, arith,
  ◌↔◌, All, Option-cases,
}
use did_crdt.Ord.Text.{Text}
use did_crdt.Error.{ok}
use did_crdt.Validate.{
  is_scheme_char, is_printable, split_once, is_scheme, recognise_uri, recognise_uris,
  recognise_also_known_as,
}

-- A scheme, a colon and at least one printable character, of at most 512 bytes.
abbrev pub IsAlias : Text → Type 0
IsAlias uri =
    (scheme : Text) × (rest : Text) × (uri ≡ scheme ++ 58 ∷ rest)
    × (is_scheme scheme ≡ true)
    × (rest ≢ [])
    × (all is_printable rest ≡ true)
    × (length uri ≤ 512)

split_once_sound : (sep : ℕ) (t s r : Text) → split_once sep t ≡ some (s, r) → t ≡ s ++ sep ∷ r
unfolding split_once
split_once_sound sep [] s r h = cc
split_once_sound sep (c ∷ cs) s r h = elim (Option-cases (split_once sep cs)) [
  | inl e ↦ ground (arith, h, e)
  | inr (found, e) ↦ ground (arith, h, e, split_once_sound sep cs found.0 found.1 e)
]

split_once_first :
    (s r : Text) → all is_scheme_char s ≡ true → split_once 58 (s ++ 58 ∷ r) ≡ some (s, r)
unfolding split_once
split_once_first [] r h = refl
split_once_first (c ∷ s) r h = ground (arith, h, split_once_first s r)

recognised : (uri : Text) → recognise_uri uri ≡ ok tt → IsAlias uri
unfolding recognise_uri
recognised uri h = elim (Option-cases (split_once 58 uri)) [
  | inl e ↦ absurd (ground (arith, h, e))
  | inr (found, e) ↦ (
    found.0,
    found.1,
    split_once_sound 58 uri found.0 found.1 e,
    ground (arith, h, e),
    ground (arith, h, e),
    ground (arith, h, e),
    ground (arith, h, e),
  )
]

recognise_split :
    (uri s r : Text)
    → split_once 58 uri ≡ some (s, r)
    → uri ≢ []
    → is_scheme s ≡ true
    → r ≢ []
    → all is_printable r ≡ true
    → length uri ≤ 512
    → recognise_uri uri ≡ ok tt
unfolding recognise_uri
recognise_split uri s r e n k ne p l = ground (arith, e, n, k, ne, p, l)

split_not_nil : (uri s r : Text) → uri ≡ s ++ 58 ∷ r → uri ≢ []
split_not_nil uri [] r e z = cc (e, z)
split_not_nil uri (c ∷ s) r e z = cc (e, z)

scheme_chars : (s : Text) → is_scheme s ≡ true → all is_scheme_char s ≡ true
unfolding is_scheme
scheme_chars s h = ground (arith, h)

recognise_uri_lem : (uri : Text) → (recognise_uri uri ≡ ok tt) ↔ IsAlias uri
recognise_uri_lem uri = (
  recognised uri,
  λ a.
      let (s, r, e, k, ne, p, l) = a in
      recognise_split uri s r (ap (split_once 58) e ∙ split_once_first s r (scheme_chars s k))
        (split_not_nil uri s r e) k ne p l,
)

recognise_uris_lem : (uris : List Text) → (recognise_uris uris ≡ ok tt) ↔ All IsAlias uris
unfolding recognise_uris
recognise_uris_lem [] = (λ h. tt, λ h. refl)
recognise_uris_lem (uri ∷ uris) = (
  λ h.
      let first : recognise_uri uri ≡ ok tt = ground (arith, h) in
      let rest : recognise_uris uris ≡ ok tt = ground (arith, h) in
      ((recognise_uri_lem uri).0 first, (recognise_uris_lem uris).0 rest),
  λ a. ground (arith, (recognise_uri_lem uri).1 a.0, (recognise_uris_lem uris).1 a.1),
)

-- An alias set is recognised exactly if it has at most 32 entries and each one is a scheme (a
-- letter, then letters, digits, `+`, `-` or `.`), a colon and at least one printable character that
-- is no space, of at most 512 bytes in all; an entry may occur more than once.
pub recognise_also_known_as_lem :
    (uris : List Text)
    → (recognise_also_known_as uris ≡ ok tt) ↔ ((length uris ≤ 32) × All IsAlias uris)
unfolding recognise_also_known_as
recognise_also_known_as_lem uris = (
  λ h.
      let all_of : recognise_uris uris ≡ ok tt = ground (arith, h) in
      (ground (arith, h), (recognise_uris_lem uris).0 all_of),
  λ a. ground (arith, a.0, (recognise_uris_lem uris).1 a.1),
)
