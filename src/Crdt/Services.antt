-- ===== src/Crdt/Services.antt =====
-- src/core/crdt.rs, `ServiceEndpoints`: the add-wins set of service endpoints. `live` maps the
-- timestamp of an add (its dot) to the entry, `context` a node to the latest dot seen from it.
pub mod Context
pub mod Live
pub mod Join
pub mod Replay
use did_crdt.Base.{
  ℕ, Bool, true, false, not, ◌||◌, ◌&&◌, ◌≡◌, refl, List, [], ◌∷◌, Option, none, some, any,
  if◌then◌else◌, arith,
}
use did_crdt.Ord.{Ord, lt?, le?, eq?, view_ord, nat_ord, pair_ord}
use did_crdt.Ord.Text.{Text, list_ord}
use did_crdt.Std.Map
use did_crdt.Std.Map.{Map, contains_key, values, is_some}
use did_crdt.Std.Set
use did_crdt.Std.Sort.{sort_by_key}
use did_crdt.Hlc.{HlcTimestamp, timestamp_ord}

-- `struct ServiceEntry`.
pub record ServiceEntry : Type 0 where
  pub id : Text
  pub service_type : Text
  pub endpoint : Text

abbrev pub entry_fields : ServiceEntry → Text × (Text × Text)
entry_fields e = (e.id, (e.service_type, e.endpoint))

pub entry_fields_injective : (d e : ServiceEntry) → entry_fields d ≡ entry_fields e → d ≡ e
entry_fields_injective d e h = ground arith

-- Of this order only the equality is used: the derived `Eq`.
instance unfoldable pub entry_ord : Ord ServiceEntry
unfolding view_ord pair_ord list_ord
entry_ord = view_ord entry_fields entry_fields_injective

-- `type Dot`.
abbrev pub Dot : Type 0
Dot = HlcTimestamp

-- `struct ServiceEndpoints`.
pub record ServiceEndpoints : Type 0 where
  pub live : Map Dot ServiceEntry
  pub context : Map ℕ Dot

-- `ServiceEndpoints::new`.
unfoldable pub new : ServiceEndpoints
new = record { live = []; context = [] }

-- The update of one slot of a context in `observe` and `merge`: set where it is absent or earlier.
unfoldable pub raise : ℕ → Dot → Map ℕ Dot → Map ℕ Dot
raise node dot context = elim (Map.get context node) [
  | none ↦ Map.insert node dot context
  | some slot ↦ if lt? slot dot then Map.insert node dot context else context
]

-- `ServiceEndpoints::observe`.
unfoldable pub observe : Dot → ServiceEndpoints → ServiceEndpoints
observe dot s = record s { context = raise dot.node_id dot s.context }

-- `ServiceEndpoints::seen`.
unfoldable pub seen : Map ℕ Dot → Dot → Bool
seen context dot = elim (Map.get context dot.node_id) [ none ↦ false | some hi ↦ le? dot hi ]

-- `ServiceEndpoints::apply_add`.
unfoldable pub apply_add : ServiceEntry → Dot → ServiceEndpoints → ServiceEndpoints
unfolding observe
apply_add entry dot s = let s' = observe dot s in record s' { live = Map.insert dot entry s'.live }

-- The loop of `apply_remove` over the dots that the remove observed.
unfoldable pub cancel : List Dot → ServiceEndpoints → ServiceEndpoints
unfolding observe
cancel [] s = s
cancel (d ∷ ds) s = let s' = observe d s in cancel ds (record s' { live = Map.remove d s'.live })

-- `ServiceEndpoints::apply_remove`.
unfoldable pub apply_remove : List Dot → Dot → ServiceEndpoints → ServiceEndpoints
unfolding observe cancel
apply_remove dots witness s = cancel dots (observe witness s)

-- `ServiceEndpoints::contains_id`.
unfoldable pub contains_id : ServiceEndpoints → Text → Bool
contains_id s id = any (λ e. eq? e.id id) (values s.live)

-- The loop of `entries`: each value the first time that it comes.
unfoldable pub first_times : List ServiceEntry → List ServiceEntry → List ServiceEntry
first_times before [] = []
first_times before (e ∷ es) =
    let rest = first_times (Set.insert e before) es in
    if Set.contains before e then rest else e ∷ rest

-- `ServiceEndpoints::entries`.
unfoldable pub entries : ServiceEndpoints → List ServiceEntry
unfolding first_times
entries s = sort_by_key (λ e. e.id) (first_times [] (values s.live))

-- A loop of `merge` over one side's live adds: those that pass the test go into `acc`.
unfoldable pub keep_into :
    (Dot → Bool) → Map Dot ServiceEntry → Map Dot ServiceEntry → Map Dot ServiceEntry
keep_into keep [] acc = acc
keep_into keep ((dot, entry) ∷ m) acc =
    keep_into keep m (if keep dot then Map.insert dot entry acc else acc)

-- The loop of `merge` over the other side's context.
unfoldable pub merge_context : Map ℕ Dot → Map ℕ Dot → Map ℕ Dot
unfolding raise
merge_context context [] = context
merge_context context ((node, dot) ∷ other) = merge_context (raise node dot context) other

-- `ServiceEndpoints::merge`.
unfoldable pub merge : ServiceEndpoints → ServiceEndpoints → ServiceEndpoints
unfolding keep_into merge_context seen
merge s other =
    let mine = λ (dot : Dot). contains_key other.live dot || not (seen other.context dot) in
    let theirs = λ (dot : Dot). contains_key s.live dot || not (seen s.context dot) in
    record {
      live = keep_into theirs other.live (keep_into mine s.live []);
      context = merge_context s.context other.context;
    }

-- Both maps are ordered, and every live dot has been seen.
pub record IsValid (s : ServiceEndpoints) : Type 0 where
  pub live_ordered : Map.IsOrdered s.live
  pub context_ordered : Map.IsOrdered s.context
  pub live_seen : (d : Dot) → contains_key s.live d ≡ true → seen s.context d ≡ true

abbrev pub Same : Option ServiceEntry → Option ServiceEntry → Type 0
Same none y = Unit
Same (some e) none = Unit
Same (some e) (some f) = e ≡ f

-- Where both sides hold a dot they hold the same entry under it: a dot names one add.
abbrev pub Agree : ServiceEndpoints → ServiceEndpoints → Type 0
Agree a b = (d : Dot) → Same (Map.get a.live d) (Map.get b.live d)
