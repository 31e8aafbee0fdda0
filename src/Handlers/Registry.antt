-- ===== src/Handlers/Registry.antt =====
-- event.go: the registration of event handlers, their removal, and the order of their calls.
--
-- An instance of a handler is told by its address. Whether a handler runs at once or in a
-- goroutine of its own, what is recorded is the order in which the calls are made.
use discordgo.Base.{
  ℕ, zero, suc, ◌+◌, ◌-◌, String, Option, none, some, List, [], ◌∷◌, ◌++◌, Map, put, write, eqb,
  length, get_elem?, take, drop, map, if◌then◌else◌,
}
use discordgo.State.Types.{Addr}

-- An `EventHandler`, by the type of the events that it belongs to; what it does is opaque.
pub record EventHandler : Type 0 where
  pub type : String
  pub other : ℕ

abbrev pub interface_event_type : String
interface_event_type = "__INTERFACE__"

-- The maps of a `Session`; a missing key and a nil map are an empty slice.
pub record Handlers : Type 0 where
  pub handlers : Map (List Addr)
  pub once_handlers : Map (List Addr)
  pub instances : Addr → EventHandler
  pub next_instance : Addr

abbrev pub held : Map (List Addr) → String → List Addr
held m t = elim (m t) [ none ↦ [] | some ps ↦ ps ]

-- `&eventHandlerInstance{eventHandler}`
abbrev pub new_instance : EventHandler → Handlers → Handlers
new_instance eh s = record s {
  instances = write s.next_instance eh s.instances;
  next_instance = s.next_instance + 1;
}

-- One loop of `removeEventHandlerInstance`: it ranges over `xs`, whose array it shifts where it
-- finds the instance, and keeps the last slice that it stored. The first argument counts the
-- rounds that are left.
unfoldable pub remove_loop : ℕ → ℕ → Addr → List Addr → List Addr → List Addr
remove_loop zero i p xs stored = stored
remove_loop (suc rounds) i p xs stored = elim (get_elem? xs i) [
  | none ↦ stored
  | some q ↦
      let shorter = take i xs ++ drop (i + 1) xs in
      let found = remove_loop rounds (i + 1) p (shorter ++ drop (length xs - 1) xs) shorter in
      let not_found = remove_loop rounds (i + 1) p xs stored in if eqb q p then found else not_found
]

-- The map is written only where the loop finds the instance; to write the same slice back is no
-- difference.
unfoldable pub remove_from : String → Addr → Map (List Addr) → Map (List Addr)
unfolding remove_loop
remove_from t p m = put t (remove_loop (length (held m t)) 0 p (held m t) (held m t)) m

unfoldable pub remove_event_handler_instance : String → Addr → Handlers → Handlers
unfolding remove_from
remove_event_handler_instance t p s = record s {
  handlers = remove_from t p s.handlers;
  once_handlers = remove_from t p s.once_handlers;
}

-- The function that takes the handler out again, and the session with the handler.
unfoldable pub add_event_handler : EventHandler → Handlers → (Handlers → Handlers) × Handlers
add_event_handler eh s =
    let p = s.next_instance in
    let t = new_instance eh s in
    (
      remove_event_handler_instance eh.type p,
      record t { handlers = put eh.type (held s.handlers eh.type ++ p ∷ []) s.handlers },
    )

unfoldable pub add_event_handler_once : EventHandler → Handlers → (Handlers → Handlers) × Handlers
add_event_handler_once eh s =
    let p = s.next_instance in
    let t = new_instance eh s in
    (
      remove_event_handler_instance eh.type p,
      record t {
        once_handlers = put eh.type (held s.once_handlers eh.type ++ p ∷ []) s.once_handlers;
      },
    )

-- `AddHandler` and `AddHandlerOnce`, over the generated `handlerForInterface`.
module _ {H : Type 0} (handler_for_interface : H → Option EventHandler) where
  unfoldable pub add_handler : H → Handlers → (Handlers → Handlers) × Handlers
  unfolding add_event_handler
  add_handler h s = elim (handler_for_interface h) [
    | none ↦ (λ t. t, s)
    | some eh ↦ add_event_handler eh s
  ]

  unfoldable pub add_handler_once : H → Handlers → (Handlers → Handlers) × Handlers
  unfolding add_event_handler_once
  add_handler_once h s = elim (handler_for_interface h) [
    | none ↦ (λ t. t, s)
    | some eh ↦ add_event_handler_once eh s
  ]

-- `handle`: the instances that it calls, in order.
unfoldable pub handle : String → Handlers → List Addr × Handlers
handle t s =
    let once = held s.once_handlers t in
    (
      held s.handlers t ++ once,
      elim once [ [] ↦ s | p ∷ ps ↦ record s { once_handlers = put t [] s.once_handlers } ],
    )

pub data Call : Type 0 where
  internally : Call
  calls : Addr → Call

unfoldable pub handle_event : String → Handlers → List Call × Handlers
unfolding handle
handle_event t s =
    let (first, s₁) = handle interface_event_type s in
    let (second, s₂) = handle t s₁ in (internally ∷ map calls first ++ map calls second, s₂)
