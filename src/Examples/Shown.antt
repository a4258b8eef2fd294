-- ===== src/Examples/Shown.antt =====
-- The resolution of a document made from a key, after an update.
use did_crdt.Base.{ℕ, ◌≡◌, refl, false, ◌||◌, ◌&&◌, any, [], ◌∷◌, some}
use did_crdt.Ord.{nat_ord, eq?}
use did_crdt.Ord.Text.{list_ord, cmp_list}
use did_crdt.Std.Map.{contains_key}
use did_crdt.Std.Set
use did_crdt.Delta.{relationship_ord, authentication, assertion_method}
use did_crdt.Crdt.Sets.{is_set, is_revoked, method_entries}
use did_crdt.Resolve.{is_reserved_document_property}
use did_crdt.Resolve.Shape.{DidDocument}
use did_crdt.Document.{apply_op}
use did_crdt.Document.Genesis
use did_crdt.Document.Projection.{Rendering, project, resolve, keyed, twin_methods}
use did_crdt.Document.Projection.Keys.{array_of, offers, resolve-shows}
use did_crdt.Examples.Bundles.{made, seeds}
use did_crdt.Examples.Documents.{crates}

abbrev rendering : Rendering ℕ
rendering = record {
  decode_vec = some;
  encode_string = λ bytes. bytes;
  decimal = λ n. n ∷ [];
  okp_key = λ x. 1;
  version = λ content. [];
}

abbrev shown : DidDocument ℕ
shown = project rendering crates made

resolve-made : (resolve rendering crates seeds made).did_document ≡ some shown
unfolding resolve is_set Genesis.new apply_op list_ord cmp_list nat_ord
resolve-made = refl

resolve-shows_example :
    (is_set made.deactivated ≡ false)
    × (Set.contains (array_of authentication shown) (7 ∷ []) ≡ (
        any
          (offers (is_revoked crates.ids made.revoked_verification_methods) authentication (7 ∷ []))
          (method_entries crates.methods made.verification_methods)
        || (eq? authentication assertion_method
            && any
                (λ t. eq? (7 ∷ []) t.id)
                (twin_methods rendering made.did (keyed rendering crates made)))))
    × ((contains_key shown.extra (105 ∷ 100 ∷ []) && is_reserved_document_property (105 ∷ 100 ∷ []))
        ≡ false)
resolve-shows_example =
    resolve-shows rendering crates seeds made shown authentication (7 ∷ []) (105 ∷ 100 ∷ [])
      resolve-made
