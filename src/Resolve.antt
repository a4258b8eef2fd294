-- ===== src/Resolve.antt =====
-- src/core/resolve.rs: the DID Core properties that document data may not set.
pub mod Shape
use did_crdt.Base.{Bool, List, [], ◌∷◌}
use did_crdt.Ord.{nat_ord}
use did_crdt.Ord.Text.{Text, list_ord}
use did_crdt.Std.Set

-- `RESERVED_DOCUMENT_PROPERTIES`, from `@context` to `service`.
unfoldable pub reserved_document_properties : List Text
reserved_document_properties =
    (64 ∷ 99 ∷ 111 ∷ 110 ∷ 116 ∷ 101 ∷ 120 ∷ 116 ∷ [])
    ∷ (105 ∷ 100 ∷ [])
    ∷ (97 ∷ 108 ∷ 115 ∷ 111 ∷ 75 ∷ 110 ∷ 111 ∷ 119 ∷ 110 ∷ 65 ∷ 115 ∷ [])
    ∷ (99 ∷ 111 ∷ 110 ∷ 116 ∷ 114 ∷ 111 ∷ 108 ∷ 108 ∷ 101 ∷ 114 ∷ [])
    ∷ (118 ∷ 101 ∷ 114 ∷ 105 ∷ 102 ∷ 105 ∷ 99 ∷ 97 ∷ 116 ∷ 105 ∷ 111 ∷ 110 ∷ 77 ∷ 101 ∷ 116 ∷ 104
        ∷ 111 ∷ 100 ∷ [])
    ∷ (97 ∷ 117 ∷ 116 ∷ 104 ∷ 101 ∷ 110 ∷ 116 ∷ 105 ∷ 99 ∷ 97 ∷ 116 ∷ 105 ∷ 111 ∷ 110 ∷ [])
    ∷ (97 ∷ 115 ∷ 115 ∷ 101 ∷ 114 ∷ 116 ∷ 105 ∷ 111 ∷ 110 ∷ 77 ∷ 101 ∷ 116 ∷ 104 ∷ 111 ∷ 100 ∷ [])
    ∷ (107 ∷ 101 ∷ 121 ∷ 65 ∷ 103 ∷ 114 ∷ 101 ∷ 101 ∷ 109 ∷ 101 ∷ 110 ∷ 116 ∷ [])
    ∷ (99 ∷ 97 ∷ 112 ∷ 97 ∷ 98 ∷ 105 ∷ 108 ∷ 105 ∷ 116 ∷ 121 ∷ 73 ∷ 110 ∷ 118 ∷ 111 ∷ 99 ∷ 97 ∷ 116
        ∷ 105 ∷ 111 ∷ 110 ∷ [])
    ∷ (99 ∷ 97 ∷ 112 ∷ 97 ∷ 98 ∷ 105 ∷ 108 ∷ 105 ∷ 116 ∷ 121 ∷ 68 ∷ 101 ∷ 108 ∷ 101 ∷ 103 ∷ 97 ∷ 116
        ∷ 105 ∷ 111 ∷ 110 ∷ [])
    ∷ (115 ∷ 101 ∷ 114 ∷ 118 ∷ 105 ∷ 99 ∷ 101 ∷ [])
    ∷ []

-- `is_reserved_document_property`.
unfoldable pub is_reserved_document_property : Text → Bool
is_reserved_document_property key = Set.contains reserved_document_properties key
