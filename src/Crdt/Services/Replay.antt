-- ===== src/Crdt/Services/Replay.antt =====
-- src/core/crdt.rs, `ServiceEndpoints`: adds and removes replayed in either order, and merged.
use did_crdt.Base.{
  ℕ, true, false, ◌≡◌, ◌≢◌, refl, sym, ap, ◌∙◌, List, [], ◌∷◌, Option, none, some, if◌then◌else◌,
  arith,
}
use did_crdt.Ord.{eq?, nat_ord}
use did_crdt.Std.Map
use did_crdt.Std.Map.{Map, contains_key}
use did_crdt.Std.Set
use did_crdt.Hlc.{timestamp_ord}
use did_crdt.Crdt.Services.{
  Dot, ServiceEntry, ServiceEndpoints, IsValid, observe, apply_add, apply_remove, cancel, merge,
  seen,
}
use did_crdt.Crdt.Services.Context.{get-raise, later, later_comm, later_assoc}
use did_crdt.Crdt.Services.Join.{IsValid-ext}
use did_crdt.Crdt.Services.Live.{
  get-apply_add, get-apply_remove, apply_add-IsValid, apply_remove-IsValid, get-merge,
}

-- What a dot contributes to the slot of a node.
abbrev point : Dot → ℕ → Option Dot
point d n = if eq? n d.node_id then some d else none

get-observe :
    (d : Dot) (s : ServiceEndpoints) (n : ℕ)
    → Map.get (observe d s).context n ≡ later (Map.get s.context n) (point d n)
unfolding observe
get-observe d s n = ground (arith, get-raise d.node_id d s.context n, nat_ord.eq_of_cmp n d.node_id)

get_context-apply_add :
    (e : ServiceEntry) (d : Dot) (s : ServiceEndpoints) (n : ℕ)
    → Map.get (apply_add e d s).context n ≡ later (Map.get s.context n) (point d n)
unfolding apply_add
get_context-apply_add e d s n = get-observe d s n

abbrev points : List Dot → ℕ → Option Dot
points [] n = none
points (d ∷ ds) n = later (point d n) (points ds n)

later-none : (a : Option Dot) → a ≡ later a none
later-none none = refl
later-none (some a) = refl

get_context-cancel :
    (ds : List Dot) (s : ServiceEndpoints) (n : ℕ)
    → Map.get (cancel ds s).context n ≡ later (Map.get s.context n) (points ds n)
unfolding cancel
get_context-cancel [] s n = later-none (Map.get s.context n)
get_context-cancel (d ∷ ds) s n =
    let s' = observe d s in
    get_context-cancel ds (record s' { live = Map.remove d s'.live }) n
    ∙ ap (λ a. later a (points ds n)) (get-observe d s n)
    ∙ later_assoc (Map.get s.context n) (point d n) (points ds n)

get_context-apply_remove :
    (ds : List Dot) (w : Dot) (s : ServiceEndpoints) (n : ℕ)
    → Map.get (apply_remove ds w s).context n ≡ later (Map.get s.context n) (points (w ∷ ds) n)
unfolding apply_remove
get_context-apply_remove ds w s n =
    get_context-cancel ds (observe w s) n
    ∙ ap (λ a. later a (points ds n)) (get-observe w s n)
    ∙ later_assoc (Map.get s.context n) (point w n) (points ds n)

later_swap : (a b c : Option Dot) → later (later a b) c ≡ later (later a c) b
later_swap a b c = later_assoc a b c ∙ ap (later a) (later_comm b c) ∙ sym (later_assoc a c b)

-- On a valid service state, adds under two different dots commute.
pub apply_add_comm :
    (e f : ServiceEntry) (c d : Dot) (s : ServiceEndpoints)
    → IsValid s
    → c ≢ d
    → apply_add e c (apply_add f d s) ≡ apply_add f d (apply_add e c s)
apply_add_comm e f c d s v ne =
    IsValid-ext (apply_add e c (apply_add f d s)) (apply_add f d (apply_add e c s))
      (apply_add-IsValid e c (apply_add f d s) (apply_add-IsValid f d s v))
      (apply_add-IsValid f d (apply_add e c s) (apply_add-IsValid e c s v))
      (λ x. ground (
        arith,
        get-apply_add e c (apply_add f d s) x,
        get-apply_add f d s x,
        get-apply_add f d (apply_add e c s) x,
        get-apply_add e c s x,
        timestamp_ord.eq_of_cmp x c,
        timestamp_ord.eq_of_cmp x d,
      ))
      (λ n. ground (
        arith,
        get_context-apply_add e c (apply_add f d s) n,
        get_context-apply_add f d s n,
        get_context-apply_add f d (apply_add e c s) n,
        get_context-apply_add e c s n,
        later_swap (Map.get s.context n) (point d n) (point c n),
      ))

-- On a valid service state, removes commute, whatever dots they observed.
pub apply_remove_comm :
    (cs ds : List Dot) (u w : Dot) (s : ServiceEndpoints)
    → IsValid s
    → apply_remove cs u (apply_remove ds w s) ≡ apply_remove ds w (apply_remove cs u s)
apply_remove_comm cs ds u w s v =
    IsValid-ext (apply_remove cs u (apply_remove ds w s)) (apply_remove ds w (apply_remove cs u s))
      (apply_remove-IsValid cs u (apply_remove ds w s) (apply_remove-IsValid ds w s v))
      (apply_remove-IsValid ds w (apply_remove cs u s) (apply_remove-IsValid cs u s v))
      (λ x. ground (
        arith,
        get-apply_remove cs u (apply_remove ds w s) x,
        get-apply_remove ds w s x,
        get-apply_remove ds w (apply_remove cs u s) x,
        get-apply_remove cs u s x,
      ))
      (λ n.
        get_context-apply_remove cs u (apply_remove ds w s) n
        ∙ ap (λ a. later a (points (u ∷ cs) n)) (get_context-apply_remove ds w s n)
        ∙ later_swap (Map.get s.context n) (points (w ∷ ds) n) (points (u ∷ cs) n)
        ∙ ap (λ a. later a (points (w ∷ ds) n)) (sym (get_context-apply_remove cs u s n))
        ∙ sym (get_context-apply_remove ds w (apply_remove cs u s) n))

-- On a valid service state, an add commutes with a remove that did not observe it.
pub apply_add-apply_remove :
    (e : ServiceEntry) (c : Dot) (ds : List Dot) (w : Dot) (s : ServiceEndpoints)
    → IsValid s
    → Set.contains ds c ≡ false
    → apply_add e c (apply_remove ds w s) ≡ apply_remove ds w (apply_add e c s)
apply_add-apply_remove e c ds w s v unobserved =
    IsValid-ext (apply_add e c (apply_remove ds w s)) (apply_remove ds w (apply_add e c s))
      (apply_add-IsValid e c (apply_remove ds w s) (apply_remove-IsValid ds w s v))
      (apply_remove-IsValid ds w (apply_add e c s) (apply_add-IsValid e c s v))
      (λ x. ground (
        arith,
        get-apply_add e c (apply_remove ds w s) x,
        get-apply_remove ds w s x,
        get-apply_remove ds w (apply_add e c s) x,
        get-apply_add e c s x,
        timestamp_ord.eq_of_cmp x c,
      ))
      (λ n.
        get_context-apply_add e c (apply_remove ds w s) n
        ∙ ap (λ a. later a (point c n)) (get_context-apply_remove ds w s n)
        ∙ later_swap (Map.get s.context n) (points (w ∷ ds) n) (point c n)
        ∙ ap (λ a. later a (points (w ∷ ds) n)) (sym (get_context-apply_add e c s n))
        ∙ sym (get_context-apply_remove ds w (apply_add e c s) n))

-- An add on one valid replica survives the merge with another valid replica that concurrently
-- applied a remove, in either order of the merge, provided that the other replica after its remove
-- has not seen the dot of the add.
pub add_wins :
    (e : ServiceEntry) (c : Dot) (ds : List Dot) (w : Dot) (a b : ServiceEndpoints)
    → IsValid a
    → IsValid b
    → seen (apply_remove ds w b).context c ≡ false
    → (Map.get (merge (apply_add e c a) (apply_remove ds w b)).live c ≡ some e)
      × (Map.get (merge (apply_remove ds w b) (apply_add e c a)).live c ≡ some e)
add_wins e c ds w a b v u unseen =
    let a' = apply_add e c a in
    let b' = apply_remove ds w b in
    let v' = apply_add-IsValid e c a v in
    let u' = apply_remove-IsValid ds w b u in
    (
      ground (
        arith,
        get-merge a' b' c v' u',
        get-apply_add e c a c,
        timestamp_ord.cmp_refl c,
        u'.live_seen c,
      ),
      ground (
        arith,
        get-merge b' a' c u' v',
        get-apply_add e c a c,
        timestamp_ord.cmp_refl c,
        u'.live_seen c,
      ),
    )

-- A dot that a valid replica has seen and no longer holds live is not live after a merge with any
-- other valid replica, in either order.
pub removed_stays :
    (d : Dot) (a b : ServiceEndpoints)
    → IsValid a
    → IsValid b
    → seen a.context d ≡ true
    → Map.get a.live d ≡ none
    → (Map.get (merge a b).live d ≡ none) × (Map.get (merge b a).live d ≡ none)
removed_stays d a b v w s gone =
    (ground (arith, get-merge a b d v w), ground (arith, get-merge b a d w v))
