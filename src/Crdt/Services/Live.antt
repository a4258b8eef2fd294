-- ===== src/Crdt/Services/Live.antt =====
-- src/core/crdt.rs, `ServiceEndpoints`: the live adds after each operation.
use did_crdt.Base.{
  true, Bool, not, ◌||◌, ◌≡◌, refl, ap, ◌∙◌, List, [], ◌∷◌, Option, none, some, if◌then◌else◌,
  arith,
}
use did_crdt.Ord.{eq?, nat_ord}
use did_crdt.Std.Map
use did_crdt.Std.Map.{is_some, Map, IsOrdered, contains_key}
use did_crdt.Std.Map.Laws.{get-insert, insert-IsOrdered, get_below, get-remove, remove-IsOrdered}
use did_crdt.Std.Set
use did_crdt.Hlc.{timestamp_ord}
use did_crdt.Crdt.Services.{
  Dot, ServiceEntry, ServiceEndpoints, IsValid, seen, keep_into, merge, apply_add, apply_remove,
  cancel, observe, new, Same,
}
use did_crdt.Crdt.Services.Context.{
  seen-raise, raise-IsOrdered, seen-merge_context, merge_context-IsOrdered,
}

-- What a merge loop leaves under a dot: the side's entry if there is one that passes, else what
-- was there.
abbrev pub pick : Option ServiceEntry → Bool → Option ServiceEntry → Option ServiceEntry
pick none passes before = before
pick (some e) passes before = if passes then some e else before

pub get-keep_into :
    (keep : Dot → Bool) (m acc : Map Dot ServiceEntry) (d : Dot)
    → IsOrdered m
    → Map.get (keep_into keep m acc) d ≡ pick (Map.get m d) (keep d) (Map.get acc d)
unfolding keep_into Map.get
get-keep_into keep [] acc d s = refl
get-keep_into keep ((k, e) ∷ m) acc d s = ground (
  arith,
  get-keep_into keep m (if keep k then Map.insert k e acc else acc) d s.1,
  get-insert k e d acc,
  get_below k m s.0,
  timestamp_ord.eq_of_cmp d k,
)

keep_into-IsOrdered :
    (keep : Dot → Bool) (m acc : Map Dot ServiceEntry)
    → IsOrdered acc
    → IsOrdered (keep_into keep m acc)
unfolding keep_into
keep_into-IsOrdered keep [] acc s = s
keep_into-IsOrdered keep ((k, e) ∷ m) acc s =
    keep_into-IsOrdered keep m (if keep k then Map.insert k e acc else acc)
      (ground (arith, insert-IsOrdered k e acc s))

-- An add survives a merge if each side holds it or has not seen it.
pub get-merge :
    (a b : ServiceEndpoints) (d : Dot)
    → IsValid a
    → IsValid b
    → Map.get (merge a b).live d
      ≡ pick
          (Map.get b.live d)
          (contains_key a.live d || not (seen a.context d))
          (pick (Map.get a.live d) (contains_key b.live d || not (seen b.context d)) none)
unfolding merge Map.get
get-merge a b d v w =
    let mine = λ (x : Dot). contains_key b.live x || not (seen b.context x) in
    let theirs = λ (x : Dot). contains_key a.live x || not (seen a.context x) in
    get-keep_into theirs b.live (keep_into mine a.live []) d w.live_ordered
    ∙ ap (pick (Map.get b.live d) (theirs d)) (get-keep_into mine a.live [] d v.live_ordered)

-- The order in which the two loops run does not matter.
pub pick_comm :
    (x y : Option ServiceEntry) (s t : Bool)
    → Same x y
    → pick y (is_some x || s) (pick x (is_some y || t) none)
      ≡ pick x (is_some y || t) (pick y (is_some x || s) none)
pick_comm none none s t h = refl
pick_comm none (some f) s t h = ground arith
pick_comm (some e) none s t h = ground arith
pick_comm (some e) (some f) s t h = ground arith

pub seen-merge :
    (a b : ServiceEndpoints) (d : Dot)
    → IsValid b
    → seen (merge a b).context d ≡ (seen a.context d || seen b.context d)
unfolding merge
seen-merge a b d w = seen-merge_context a.context b.context d w.context_ordered

pub new-IsValid : IsValid new
unfolding new Map.get
new-IsValid = record { live_ordered = tt; context_ordered = tt; live_seen = λ d h. cc }

pub observe-IsValid : (d : Dot) (s : ServiceEndpoints) → IsValid s → IsValid (observe d s)
unfolding observe
observe-IsValid d s v = record {
  live_ordered = v.live_ordered;
  context_ordered = raise-IsOrdered d.node_id d s.context v.context_ordered;
  live_seen = λ x h. ground (arith, v.live_seen x h, seen-raise d.node_id d s.context x);
}

pub apply_add-IsValid :
    (e : ServiceEntry) (d : Dot) (s : ServiceEndpoints) → IsValid s → IsValid (apply_add e d s)
unfolding apply_add
apply_add-IsValid e d s v = record {
  live_ordered = insert-IsOrdered d e s.live v.live_ordered;
  context_ordered = raise-IsOrdered d.node_id d s.context v.context_ordered;
  live_seen = λ x h. ground (
    arith,
    h,
    v.live_seen x,
    seen-raise d.node_id d s.context x,
    get-insert d e x s.live,
    timestamp_ord.eq_of_cmp x d,
    timestamp_ord.cmp_refl x,
    nat_ord.cmp_refl x.node_id,
  );
}

cancel-IsValid : (ds : List Dot) (s : ServiceEndpoints) → IsValid s → IsValid (cancel ds s)
unfolding cancel
cancel-IsValid [] s v = v
cancel-IsValid (d ∷ ds) s v =
    let s' = observe d s in
    let v' = observe-IsValid d s v in
    cancel-IsValid ds (record s' { live = Map.remove d s'.live })
      (record {
        live_ordered = remove-IsOrdered d s'.live v'.live_ordered;
        context_ordered = v'.context_ordered;
        live_seen = λ x h. ground (arith, h, get-remove d x s'.live, v'.live_seen x);
      })

pub apply_remove-IsValid :
    (ds : List Dot) (w : Dot) (s : ServiceEndpoints) → IsValid s → IsValid (apply_remove ds w s)
unfolding apply_remove
apply_remove-IsValid ds w s v = cancel-IsValid ds (observe w s) (observe-IsValid w s v)

merge-live_seen :
    (a b : ServiceEndpoints)
    → IsValid a
    → IsValid b
    → (x : Dot) → contains_key (merge a b).live x ≡ true
    → seen (merge a b).context x ≡ true
merge-live_seen a b v w x h =
    ground (arith, h, get-merge a b x v w, v.live_seen x, w.live_seen x, seen-merge a b x w)

-- The merge of two valid service states is valid: its maps are ordered and every live dot has been
-- seen.
pub merge-IsValid : (a b : ServiceEndpoints) → IsValid a → IsValid b → IsValid (merge a b)
unfolding merge
merge-IsValid a b v w = record {
  live_ordered = keep_into-IsOrdered _ b.live _ (keep_into-IsOrdered _ a.live [] tt);
  context_ordered = merge_context-IsOrdered b.context a.context v.context_ordered;
  live_seen = merge-live_seen a b v w;
}

-- What an add and a remove do to each dot.
pub get-apply_add :
    (e : ServiceEntry) (d : Dot) (s : ServiceEndpoints) (x : Dot)
    → Map.get (apply_add e d s).live x ≡ (if eq? x d then some e else Map.get s.live x)
unfolding apply_add
get-apply_add e d s x = get-insert d e x s.live

get-cancel :
    (ds : List Dot) (s : ServiceEndpoints) (x : Dot)
    → Map.get (cancel ds s).live x ≡ (if Set.contains ds x then none else Map.get s.live x)
unfolding cancel Set.contains
get-cancel [] s x = refl
get-cancel (d ∷ ds) s x =
    let s' = observe d s in
    ground
      (arith, get-cancel ds (record s' { live = Map.remove d s'.live }) x, get-remove d x s.live)

pub get-apply_remove :
    (ds : List Dot) (w : Dot) (s : ServiceEndpoints) (x : Dot)
    → Map.get (apply_remove ds w s).live x ≡ (if Set.contains ds x then none else Map.get s.live x)
unfolding apply_remove
get-apply_remove ds w s x = get-cancel ds (observe w s) x
