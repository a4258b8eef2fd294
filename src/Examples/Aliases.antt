-- ===== src/Examples/Aliases.antt =====
-- Alias sets that are recognised and refused.
use did_crdt.Base.{◌≡◌, ◌≤◌, ◌↔◌, refl, [], ◌∷◌, All, length}
use did_crdt.Ord.Text.{Text}
use did_crdt.Error.{ok, err, delta_rejected}
use did_crdt.Validate.{recognise_also_known_as}
use did_crdt.Validate.Alias.{IsAlias, recognise_also_known_as_lem}

-- `did:x`, and a relative reference.
abbrev absolute : Text
absolute = 100 ∷ 105 ∷ 100 ∷ 58 ∷ 120 ∷ []

abbrev relative : Text
relative = 47 ∷ 120 ∷ []

recognise_also_known_as_lem_example :
    (recognise_also_known_as (absolute ∷ []) ≡ ok tt)
    ↔ ((length (absolute ∷ []) ≤ 32) × All IsAlias (absolute ∷ []))
recognise_also_known_as_lem_example = recognise_also_known_as_lem (absolute ∷ [])

recognise_test :
    (recognise_also_known_as (absolute ∷ []) ≡ ok tt)
    × (recognise_also_known_as (absolute ∷ relative ∷ []) ≡ err delta_rejected)
unfolding recognise_also_known_as
recognise_test = (refl, refl)
