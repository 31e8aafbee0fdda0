-- ===== src/Tests/HandlerRuns.antt =====
-- Runs of the event handlers.
use discordgo.Base.{
  ◌≡◌, refl, String, Bool, true, false, ◌||◌, ◌==◌, none, some, List, [], ◌∷◌, ◌++◌, put, no_keys,
  if◌then◌else◌, arith,
}
use discordgo.State.Types.{Addr}
use discordgo.Handlers.Registry.{
  EventHandler, interface_event_type, Handlers, held, add_event_handler, add_event_handler_once,
  internally, calls, handle_event,
}
use discordgo.Handlers.Calls.{
  handle_event_lem, Made, AllMade, add_event_handler_lem, add_event_handler_once_lem,
}

abbrev on_message : EventHandler
on_message = record { type = "MESSAGE_CREATE"; other = 0 }

-- One handler of all events, and one that is called once.
abbrev registered : Handlers
registered = record {
  handlers = put interface_event_type (0 ∷ []) no_keys;
  once_handlers = put "MESSAGE_CREATE" (1 ∷ []) no_keys;
  instances = λ p. on_message;
  next_instance = 2;
}

handle_event_lem_example :
    let out = handle_event "MESSAGE_CREATE" registered in
    (out.0 ≡ internally ∷ calls 0 ∷ calls 1 ∷ [])
    × (out.1.handlers ≡ registered.handlers)
    × ((k : String)
        → held out.1.once_handlers k ≡ (
            if (interface_event_type == k) || ("MESSAGE_CREATE" == k)
            then []
            else held registered.once_handlers k))
handle_event_lem_example = handle_event_lem "MESSAGE_CREATE" registered refl

held-Made :
    (b : Bool) (ps : List Addr)
    → Made 2 ps
    → Made 2 (elim (if b then some ps else none) [ none ↦ [] | some qs ↦ qs ])
held-Made true ps h = h
held-Made false ps h = tt

registered-AllMade : AllMade registered
registered-AllMade k = (
  held-Made (interface_event_type == k) (0 ∷ []) (omega arith, tt),
  held-Made ("MESSAGE_CREATE" == k) (1 ∷ []) (omega arith, tt),
)

add_event_handler_lem_example :
    let (remove, t) = add_event_handler on_message registered in
    ((k : String)
      → held t.handlers k ≡ (
          if "MESSAGE_CREATE" == k
          then held registered.handlers k ++ 2 ∷ []
          else held registered.handlers k))
    × ((k : String) → held (remove t).handlers k ≡ held registered.handlers k)
    × ((k : String) → held (remove t).once_handlers k ≡ held registered.once_handlers k)
add_event_handler_lem_example = add_event_handler_lem on_message registered registered-AllMade

add_event_handler_once_lem_example :
    let t = (add_event_handler_once on_message registered).1 in
    ((handle_event "MESSAGE_CREATE" t).0
      ≡ (handle_event "MESSAGE_CREATE" registered).0 ++ calls 2 ∷ [])
    × ((handle_event "MESSAGE_CREATE" (handle_event "MESSAGE_CREATE" t).1).0
        ≡ (handle_event "MESSAGE_CREATE" (handle_event "MESSAGE_CREATE" registered).1).0)
add_event_handler_once_lem_example = add_event_handler_once_lem on_message registered refl
