-- ===== src/Crdt/Registers/Fields.antt =====
-- src/core/crdt.rs: the active key and the alias set, whose writes come in any order.
use did_crdt.Base.{ℕ, ◌≡◌, ◌≢◌, sym, ap, ◌∙◌, List, Option, some, arith}
use did_crdt.Ord.{nat_ord}
use did_crdt.Ord.Text.{Text, list_ord}
use did_crdt.Std.Set.{IsAscending}
use did_crdt.Std.Sort.{sort_dedup, sort_dedup-IsAscending}
use did_crdt.Hlc.{HlcTimestamp, timestamp_ord}
use did_crdt.Crdt.Crates.{Lww}
use did_crdt.Crdt.Registers.{
  merge_aliases, ActiveKey, ActiveKeyMarker, marker_ord, KeyHash, new_marker, rotate, AlsoKnownAs,
  set_aliases, alias_entries,
}
use did_crdt.Crdt.Registers.Order.{newer_comm, newer, update-newer, Consistent, newer_swap}

module _ (hash : Text → KeyHash) (lww : Lww (Option Text) ActiveKeyMarker) where
  abbrev rotation : ℕ → Text → ActiveKey
  rotation seq r = record { val = some r; marker = new_marker hash seq r }

  pub rotate-newer :
      (seq : ℕ) (r : Text) (k : ActiveKey) → rotate hash lww seq r k ≡ newer lww k (rotation seq r)
  unfolding rotate
  rotate-newer seq r k = update-newer lww k (rotation seq r)

  rotation-Consistent :
      (m n : ℕ) (r s : Text)
      → (hash r ≡ hash s → r ≡ s)
      → Consistent lww (rotation m r) (rotation n s)
  unfolding new_marker
  rotation-Consistent m n r s apart h = ap some (apart (ap (λ k. k.key_hash) h))

  -- Two key rotations commute, whatever their sequence numbers, if the hashes of the two key
  -- references differ or the references are the same.
  pub rotate_comm :
      (m n : ℕ) (r s : Text) (k : ActiveKey)
      → (hash r ≡ hash s → r ≡ s)
      → rotate hash lww m r (rotate hash lww n s k) ≡ rotate hash lww n s (rotate hash lww m r k)
  rotate_comm m n r s k apart =
      rotate-newer m r (rotate hash lww n s k)
      ∙ ap (λ j. newer lww j (rotation m r)) (rotate-newer n s k)
      ∙ newer_swap lww k (rotation n s) (rotation m r)
          (rotation-Consistent n m s r (λ e. sym (apart (sym e))))
      ∙ ap (λ j. newer lww j (rotation n s)) (sym (rotate-newer m r k))
      ∙ sym (rotate-newer n s (rotate hash lww m r k))

-- Alias writes.
module _ (lww : Lww (List Text) HlcTimestamp) where
  abbrev write : List Text → HlcTimestamp → AlsoKnownAs
  write uris t = record { val = sort_dedup uris; marker = t }

  pub set_aliases-newer :
      (uris : List Text) (t : HlcTimestamp) (a : AlsoKnownAs)
      → set_aliases lww uris t a ≡ newer lww a (write uris t)
  unfolding set_aliases
  set_aliases-newer uris t a = update-newer lww a (write uris t)

  -- Two writes of the alias set with different timestamps commute.
  pub set_aliases_comm :
      (us vs : List Text) (s t : HlcTimestamp) (a : AlsoKnownAs)
      → s ≢ t
      → set_aliases lww us s (set_aliases lww vs t a)
        ≡ set_aliases lww vs t (set_aliases lww us s a)
  set_aliases_comm us vs s t a ne =
      set_aliases-newer us s (set_aliases lww vs t a)
      ∙ ap (λ b. newer lww b (write us s)) (set_aliases-newer vs t a)
      ∙ newer_swap lww a (write vs t) (write us s) (λ h. absurd (ne (sym h)))
      ∙ ap (λ b. newer lww b (write vs t)) (sym (set_aliases-newer us s a))
      ∙ sym (set_aliases-newer vs t (set_aliases lww us s a))

  -- A write keeps the alias set in canonical form: strictly ascending, hence without duplicates.
  pub set_aliases-IsAscending :
      (uris : List Text) (t : HlcTimestamp) (a : AlsoKnownAs)
      → IsAscending (alias_entries a)
      → IsAscending (alias_entries (set_aliases lww uris t a))
  unfolding alias_entries
  set_aliases-IsAscending uris t a h =
      rw (set_aliases-newer uris t a) (ground (arith, h, sort_dedup-IsAscending uris))

  -- The merge of two alias sets is the newer one, so it commutes where a timestamp names one write.
  pub merge_aliases_comm :
      (a b : AlsoKnownAs) → Consistent lww a b → merge_aliases lww a b ≡ merge_aliases lww b a
  unfolding merge_aliases
  merge_aliases_comm a b same =
      update-newer lww a b ∙ newer_comm lww a b same ∙ sym (update-newer lww b a)
