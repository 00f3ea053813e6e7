-- ===== src/Events/Bus.antt =====
-- packages/events/bus.py: the in-memory bus. A handler may change a state of the program, which
-- stands for whatever the coroutines reach, and it may raise.
pub mod Refinement
use mandate_razorpay_control.Prelude.{
  ℕ, Bool, true, false, Option, none, some, List, [], ◌∷◌, ◌++◌, ◌==◌, if◌then◌else◌,
}

-- A handler gives the state afterwards, and whether it returned.
abbrev pub EventHandler : Type 0 → Type 0 → Type 0
EventHandler World Event = Event → World → World × Bool

-- A topic and its handlers, in the order of their subscription.
abbrev pub Handlers : Type 0 → Type 0 → Type 0
Handlers World Event = List (ℕ × List (EventHandler World Event))

pub record InMemoryEventBus (World Event : Type 0) : Type 0 where
  pub handlers : Handlers World Event
  pub published_events : List Event

module _ {World Event : Type 0} where
  abbrev pub new_bus : InMemoryEventBus World Event
  new_bus = record { handlers = []; published_events = [] }

  -- `self._handlers[topic]`, where the topic is there.
  unfoldable pub handlers_of : ℕ → Handlers World Event → Option (List (EventHandler World Event))
  handlers_of topic [] = none
  handlers_of topic ((t, hs) ∷ rest) =
      let later = handlers_of topic rest in if t == topic then some hs else later

  -- A handler is appended to those of its topic, which is added if it is not there.
  unfoldable pub add_handler :
      ℕ → EventHandler World Event → Handlers World Event → Handlers World Event
  add_handler topic handler [] = (topic, handler ∷ []) ∷ []
  add_handler topic handler ((t, hs) ∷ rest) =
      let later = add_handler topic handler rest in
      if t == topic then (t, hs ++ (handler ∷ [])) ∷ rest else (t, hs) ∷ later

  unfoldable pub subscribe :
      ℕ → EventHandler World Event → InMemoryEventBus World Event → InMemoryEventBus World Event
  unfolding add_handler
  subscribe topic handler bus = record bus { handlers = add_handler topic handler bus.handlers }

  -- The handlers run one after the other; one that raises stops the loop.
  unfoldable pub run_handlers : List (EventHandler World Event) → Event → World → World × Bool
  run_handlers [] event world = (world, true)
  run_handlers (h ∷ hs) event world =
      let (world', returned) = h event world in
      let rest = run_handlers hs event world' in if returned then rest else (world', false)

  abbrev pub run_topic : Option (List (EventHandler World Event)) → Event → World → World × Bool
  run_topic none event world = (world, true)
  run_topic (some hs) event world = run_handlers hs event world

  -- The event is recorded before its handlers run.
  unfoldable pub publish :
      ℕ
      → Event
      → InMemoryEventBus World Event
      → World
      → InMemoryEventBus World Event × (World × Bool)
  unfolding handlers_of run_handlers
  publish topic event bus world = (
    record bus { published_events = bus.published_events ++ (event ∷ []) },
    run_topic (handlers_of topic bus.handlers) event world,
  )
