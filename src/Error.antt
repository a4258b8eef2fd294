-- ===== src/Error.antt =====
-- src/core/mod.rs: the errors of the core, without the texts of their messages, and its `Result`.
use did_crdt.Base.{ℕ, List, Bool, true, false, ◌≡◌, refl, ◌⊎◌, inl, inr}
use did_crdt.Ord.Text.{Text}

-- `enum Error`.
pub data Error : Type 0 where
  invalid_did : Error
  invalid_signature : Error
  unauthorised : Error
  serialisation : Error
  delta_rejected : Error
  delta_pending : List Text → Error
  delta_too_large : ℕ → ℕ → Error

-- `Result<T>`.
pub data Result (T : Type 0) : Type 0 where
  err : Error → Result T
  ok : T → Result T

-- The operator `?`: the first error ends the function.
infixl 5 ◌>>=◌
abbrev pub ◌>>=◌ : {S T : Type 0} → Result S → (S → Result T) → Result T
err failure >>= rest = err failure
ok value >>= rest = rest value

-- `if test { return Err(e) }`, and the rest of the function.
abbrev pub refuse_if : {T : Type 0} → Bool → Error → Result T → Result T
refuse_if true failure rest = err failure
refuse_if false failure rest = rest

pub Result-cases :
    {T : Type 0} (r : Result T) → ((e : Error) × (r ≡ err e)) ⊎ ((x : T) × (r ≡ ok x))
Result-cases (err e) = inl (e, refl)
Result-cases (ok x) = inr (x, refl)
