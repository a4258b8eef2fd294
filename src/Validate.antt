-- ===== src/Validate.antt =====
-- src/core/validate.rs: the recogniser of `alsoKnownAs` URIs. A text is its UTF-8 bytes, so each test
-- of a character is a test of a byte: no byte of a character outside ASCII is below 128.
pub mod Alias
pub mod Signature
use did_crdt.Base.{
  ℕ, Bool, true, false, not, ◌||◌, ◌&&◌, List, [], ◌∷◌, Option, none, some, all, length, ltb, leb,
  ◌==◌,
}
use did_crdt.Ord.Text.{Text}
use did_crdt.Error.{Error, delta_rejected, Result, ok, err, ◌>>=◌, refuse_if}

-- `MAX_ALSO_KNOWN_AS`, `MAX_ALSO_KNOWN_AS_URI_LEN`.
abbrev pub max_also_known_as : ℕ
max_also_known_as = 32

abbrev pub max_also_known_as_uri_len : ℕ
max_also_known_as_uri_len = 512

-- `is_ascii_alphabetic`.
abbrev pub is_alphabetic : ℕ → Bool
is_alphabetic c = (leb 65 c && leb c 90) || (leb 97 c && leb c 122)

-- A character of a scheme after the first: a letter, a digit, `+`, `-` or `.`.
abbrev pub is_scheme_char : ℕ → Bool
is_scheme_char c = is_alphabetic c || (leb 48 c && leb c 57) || c == 43 || c == 45 || c == 46

-- A printable character that is no space.
abbrev pub is_printable : ℕ → Bool
is_printable c = leb 33 c && leb c 126

-- `split_once`: what comes before the first `sep`, and what after it.
unfoldable pub split_once : ℕ → Text → Option (Text × Text)
split_once sep [] = none
split_once sep (c ∷ cs) =
    let rest = split_once sep cs in
    elim (c == sep) [
      | true ↦ some ([], cs)
      | false ↦ elim rest [ none ↦ none | some (before, after) ↦ some (c ∷ before, after) ]
    ]

-- `scheme_ok`.
unfoldable pub is_scheme : Text → Bool
is_scheme [] = false
is_scheme (c ∷ cs) = is_alphabetic c && all is_scheme_char cs

abbrev pub is_nil : Text → Bool
is_nil [] = true
is_nil (c ∷ cs) = false

-- The body of the loop of `recognise_also_known_as`.
unfoldable pub recognise_uri : Text → Result (Unit {0})
unfolding split_once is_scheme
recognise_uri uri =
    refuse_if (is_nil uri || ltb max_also_known_as_uri_len (length uri)) delta_rejected
      (elim (split_once 58 uri) [
        | none ↦ err delta_rejected
        | some (scheme, rest) ↦
            refuse_if (not (is_scheme scheme)) delta_rejected
              (refuse_if (is_nil rest || not (all is_printable rest)) delta_rejected (ok tt))
      ])

-- The loop.
unfoldable pub recognise_uris : List Text → Result (Unit {0})
unfolding recognise_uri
recognise_uris [] = ok tt
recognise_uris (uri ∷ uris) = recognise_uri uri >>= λ _. recognise_uris uris

-- `recognise_also_known_as`.
unfoldable pub recognise_also_known_as : List Text → Result (Unit {0})
unfolding recognise_uris
recognise_also_known_as uris =
    refuse_if (ltb max_also_known_as (length uris)) delta_rejected (recognise_uris uris)
