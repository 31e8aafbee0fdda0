-- ===== src/Handlers/Calls.antt =====
-- Which handlers event.go calls for an event, after they are added and removed.
use discordgo.Base.{
  ℕ, ◌<◌, ◌≡◌, refl, sym, ap, ◌∙◌, String, Bool, true, false, ◌||◌, ◌==◌, eq_iff, eq_refl, List, [],
  ◌∷◌, ◌++◌, map, put, Map, ◌⊎◌, Option, none, some, if◌then◌else◌, Bool-cases, inl, inr, arith,
}
use mathlib.Core.List.{append-nil, append_assoc}
use discordgo.State.Types.{Addr}
use discordgo.Handlers.Registry.{
  EventHandler, interface_event_type, Handlers, held, remove_from, remove_event_handler_instance,
  add_event_handler, add_event_handler_once, handle, internally, calls, handle_event,
}
use discordgo.Handlers.Removing.{Absent, remove_loop-none, remove_loop-once}

chosen :
    (b : Bool) (ps : List Addr) (o : Option (List Addr))
    → elim (if b then some ps else o) [ none ↦ [] | some qs ↦ qs ]
      ≡ (if b then ps else elim o [ none ↦ [] | some qs ↦ qs ])
chosen true ps o = refl
chosen false ps o = refl

held-put :
    (t k : String) (ps : List Addr) (m : Map (List Addr))
    → held (put t ps m) k ≡ (if t == k then ps else held m k)
held-put t k ps m = chosen (t == k) ps (m k)

held-same : (t k : String) (m : Map (List Addr)) → (t == k) ≡ true → held m t ≡ held m k
held-same t k m e = ap (held m) (ground (arith, eq_iff t k))

List-cases : (ps : List Addr) → (ps ≡ []) ⊎ ((q : Addr) × (qs : List Addr) × (ps ≡ q ∷ qs))
List-cases [] = inl refl
List-cases (p ∷ ps) = inr (p, ps, refl)

handle_lem :
    (t : String) (s : Handlers)
    → ((handle t s).0 ≡ held s.handlers t ++ held s.once_handlers t)
      × ((handle t s).1.handlers ≡ s.handlers)
      × ((k : String)
          → held (handle t s).1.once_handlers k ≡ (if t == k then [] else held s.once_handlers k))
unfolding handle
handle_lem t s = elim (List-cases (held s.once_handlers t)) [
  | inl e ↦ (refl, rw (handle, e) refl, λ k. rw (handle, e) (unchanged k e))
  | inr (q, qs, e) ↦
      (refl, rw (handle, e) refl, λ k. rw (handle, e) (held-put t k [] s.once_handlers))
]
  where
    unchanged :
        (k : String)
        → held s.once_handlers t ≡ []
        → held s.once_handlers k ≡ (if t == k then [] else held s.once_handlers k)
    unchanged k e = elim (Bool-cases (t == k)) [
      | inl same ↦ rw same (sym (held-same t k s.once_handlers same) ∙ e)
      | inr other ↦ rw other refl
    ]

map-append : {A B : Type 0} (f : A → B) (xs ys : List A) → map f (xs ++ ys) ≡ map f xs ++ map f ys
map-append f [] ys = refl
map-append f (x ∷ xs) ys = ap (λ zs. f x ∷ zs) (map-append f xs ys)

-- An event, of any type but that of all events, is handled internally first; then the handlers
-- of all events are called, and then those of its type, each time the permanent ones before
-- those that are called once, in the order of their registration. Afterwards the once handlers
-- of both kinds are gone, those of other types and all the permanent ones are kept.
pub handle_event_lem :
    (t : String) (s : Handlers)
    → (interface_event_type == t) ≡ false
    → let out = handle_event t s in
      (out.0
        ≡ internally
          ∷ (map calls
                (held s.handlers interface_event_type ++ held s.once_handlers interface_event_type)
              ++ map calls (held s.handlers t ++ held s.once_handlers t)))
      × (out.1.handlers ≡ s.handlers)
      × ((k : String)
          → held out.1.once_handlers k
            ≡ (if (interface_event_type == k) || (t == k) then [] else held s.once_handlers k))
unfolding handle_event
handle_event_lem t s other =
    let (a, b, c) = handle_lem interface_event_type s in
    let s₁ = (handle interface_event_type s).1 in
    let (a', b', c') = handle_lem t s₁ in
    (rw (b, c t, other) refl, b' ∙ b, λ k. rw (c' k, c k) (either k))
  where
    either :
        (k : String)
        → (if t == k then [] else if interface_event_type == k then [] else held s.once_handlers k)
          ≡ (if (interface_event_type == k) || (t == k) then [] else held s.once_handlers k)
    either k = ground arith

-- Every registered instance has been made.
abbrev pub Made : ℕ → List Addr → Type 0
Made n [] = Unit
Made n (p ∷ ps) = (p < n) × Made n ps

abbrev pub AllMade : Handlers → Type 0
AllMade s =
    (k : String)
    → Made s.next_instance (held s.handlers k) × Made s.next_instance (held s.once_handlers k)

Made-Absent : (n : ℕ) (ps : List Addr) → Made n ps → Absent n ps
Made-Absent n [] h = h
Made-Absent n (p ∷ ps) h = (ground arith, Made-Absent n ps h.1)

-- `removeEventHandlerInstance` on one of the maps.
remove_from-once :
    (t : String) (p : Addr) (xs ys : List Addr) (m : Map (List Addr)) (k : String)
    → held m t ≡ xs ++ p ∷ ys
    → Absent p xs
    → Absent p ys
    → held (remove_from t p m) k ≡ (if t == k then xs ++ ys else held m k)
unfolding remove_from
remove_from-once t p xs ys m k e before after =
    held-put t k _ m ∙ rw (e, remove_loop-once p xs ys before after) refl

remove_from-none :
    (t : String) (p : Addr) (m : Map (List Addr)) (k : String)
    → Absent p (held m t)
    → held (remove_from t p m) k ≡ held m k
unfolding remove_from
remove_from-none t p m k absent =
    held-put t k _ m ∙ rw (remove_loop-none p (held m t) absent) (same (Bool-cases (t == k)))
  where
    same :
        ((t == k) ≡ true) ⊎ ((t == k) ≡ false) → (if t == k then held m t else held m k) ≡ held m k
    same (inl e) = rw e (held-same t k m e)
    same (inr e) = rw e refl

-- If every registered instance was made before, a handler that is added is the last one among
-- the permanent ones of its type, and no other type's change; the function that is returned with
-- it restores the handlers of every type, the once handlers included.
pub add_event_handler_lem :
    (eh : EventHandler) (s : Handlers)
    → AllMade s
    → let (remove, t) = add_event_handler eh s in
      ((k : String)
        → held t.handlers k
          ≡ (if eh.type == k then held s.handlers k ++ s.next_instance ∷ [] else held s.handlers k))
      × ((k : String) → held (remove t).handlers k ≡ held s.handlers k)
      × ((k : String) → held (remove t).once_handlers k ≡ held s.once_handlers k)
unfolding add_event_handler remove_event_handler_instance
add_event_handler_lem eh s made =
    let p = s.next_instance in
    let xs = held s.handlers eh.type in
    let m = put eh.type (xs ++ p ∷ []) s.handlers in
    (
      λ k. held-put eh.type k (xs ++ p ∷ []) s.handlers ∙ appended k (Bool-cases (eh.type == k)),
      λ k.
          remove_from-once eh.type p xs [] m k
            (held-put eh.type eh.type (xs ++ p ∷ []) s.handlers ∙ rw (eq_refl eh.type) refl)
            (Made-Absent p xs (made eh.type).0) tt
          ∙ restored k (Bool-cases (eh.type == k)),
      λ k.
          remove_from-none eh.type p s.once_handlers k
            (Made-Absent p (held s.once_handlers eh.type) (made eh.type).1),
    )
  where
    appended :
        (k : String)
        → ((eh.type == k) ≡ true) ⊎ ((eh.type == k) ≡ false)
        → (if eh.type == k
            then held s.handlers eh.type ++ s.next_instance ∷ []
            else held s.handlers k)
          ≡ (if eh.type == k then held s.handlers k ++ s.next_instance ∷ [] else held s.handlers k)
    appended k (inl e) = rw (e, held-same eh.type k s.handlers e) refl
    appended k (inr e) = rw e refl

    restored :
        (k : String)
        → ((eh.type == k) ≡ true) ⊎ ((eh.type == k) ≡ false)
        → (if eh.type == k
            then held s.handlers eh.type ++ []
            else held (put eh.type (held s.handlers eh.type ++ s.next_instance ∷ []) s.handlers) k)
          ≡ held s.handlers k
    restored k (inl e) = rw (e, append-nil) (held-same eh.type k s.handlers e)
    restored k (inr e) = rw e (
        held-put eh.type k (held s.handlers eh.type ++ s.next_instance ∷ []) s.handlers ∙ rw e refl)

-- The calls of the second of two events of one type.
handle_event-twice :
    (t : String) (s : Handlers)
    → (interface_event_type == t) ≡ false
    → (handle_event t (handle_event t s).1).0
      ≡ internally
        ∷ (map calls (held s.handlers interface_event_type ++ [])
            ++ map calls (held s.handlers t ++ []))
handle_event-twice t s other =
    let (a, b, c) = handle_event_lem t s other in
    (handle_event_lem t (handle_event t s).1 other).0
    ∙ rw (b, c interface_event_type, c t, other, eq_refl t) refl

-- A handler that is added for one event of a type, any but that of all events, is called last in
-- the next event of that type, and the event of that type after it makes the same calls as if
-- the handler had never been added.
pub add_event_handler_once_lem :
    (eh : EventHandler) (s : Handlers)
    → (interface_event_type == eh.type) ≡ false
    → let t = (add_event_handler_once eh s).1 in
      ((handle_event eh.type t).0 ≡ (handle_event eh.type s).0 ++ calls s.next_instance ∷ [])
      × ((handle_event eh.type (handle_event eh.type t).1).0
          ≡ (handle_event eh.type (handle_event eh.type s).1).0)
unfolding add_event_handler_once
add_event_handler_once_lem eh s other =
    let t = (add_event_handler_once eh s).1 in
    (
      (handle_event_lem eh.type t other).0
          ∙ rw
              (
                elsewhere,
                here,
                sym (
                    append_assoc (held s.handlers eh.type) (held s.once_handlers eh.type)
                      (s.next_instance ∷ [])),
                map-append calls (held s.handlers eh.type ++ held s.once_handlers eh.type)
                    (s.next_instance ∷ []),
                (handle_event_lem eh.type s other).0,
                append_assoc,
              )
              refl,
      handle_event-twice eh.type t other ∙ sym (handle_event-twice eh.type s other),
    )
  where
    later : Map (List Addr)
    later = put eh.type (held s.once_handlers eh.type ++ s.next_instance ∷ []) s.once_handlers

    elsewhere : held later interface_event_type ≡ held s.once_handlers interface_event_type
    elsewhere = held-put eh.type interface_event_type _ s.once_handlers ∙ rw flipped refl
      where
        flipped : (eh.type == interface_event_type) ≡ false
        flipped =
            ground (arith, eq_iff eh.type interface_event_type, eq_iff interface_event_type eh.type)

    here : held later eh.type ≡ held s.once_handlers eh.type ++ s.next_instance ∷ []
    here = held-put eh.type eh.type _ s.once_handlers ∙ rw (eq_refl eh.type) refl
