-- ===== src/Events/Bus/Refinement.antt =====
-- packages/events/bus.py: the bus against a function from topics to subscribers.
use mathlib.Core.Path.{fun_ext}
use mandate_razorpay_control.Prelude.{
  ℕ, ◌≡◌, refl, ap, subst, Bool, true, false, Option, none, some, List, [], ◌∷◌, ◌++◌, ◌==◌,
  if◌then◌else◌, arith,
}
use mandate_razorpay_control.Events.Bus.{
  EventHandler, Handlers, InMemoryEventBus, handlers_of, add_handler, subscribe, run_handlers,
  run_topic, publish,
}

-- What a client does with a bus.
pub data Command (World Event : Type 0) : Type 0 where
  subscribing : ℕ → EventHandler World Event → Command World Event
  publishing : ℕ → Event → Command World Event

-- The abstract bus: who hears a topic, and what was published.
pub record Spec (World Event : Type 0) : Type 0 where
  pub subscribers : ℕ → List (EventHandler World Event)
  pub log : List Event

-- How subscribers hear an event: the first of them first, and on to the next as long as each returns.
-- The first that raises is the last to hear it.
pub data Delivers {World Event : Type 0} (event : Event)
    : List (EventHandler World Event) → World → World → Bool → Type 0 where
  all_heard : (world : World) → Delivers event [] world world true
  heard :
      (h : EventHandler World Event) (hs : List (EventHandler World Event))
      (world world' world'' : World) (returned : Bool)
      → h event world ≡ (world', true)
      → Delivers event hs world' world'' returned
      → Delivers event (h ∷ hs) world world'' returned
  raised :
      (h : EventHandler World Event) (hs : List (EventHandler World Event)) (world world' : World)
      → h event world ≡ (world', false)
      → Delivers event (h ∷ hs) world world' false

module _ {World Event : Type 0} where
  abbrev pub listed : Option (List (EventHandler World Event)) → List (EventHandler World Event)
  listed none = []
  listed (some hs) = hs

  abbrev pub view : InMemoryEventBus World Event → Spec World Event
  view bus = record {
    subscribers = λ t. listed (handlers_of t bus.handlers);
    log = bus.published_events;
  }

  abbrev pub with_subscriber :
      ℕ
      → EventHandler World Event
      → (ℕ → List (EventHandler World Event))
      → ℕ
      → List (EventHandler World Event)
  with_subscriber topic h subs t = if topic == t then subs t ++ (h ∷ []) else subs t

  -- A run on the abstract bus: a subscriber comes last for its topic and changes no other, and a
  -- publication is logged and delivered to the subscribers of its topic.
  pub data Runs
      : List (Command World Event)
        → Spec World Event
        → World
        → Spec World Event
        → World
        → List Bool
        → Type 0 where
    ended : (spec : Spec World Event) (world : World) → Runs [] spec world spec world []
    subscribes :
        (topic : ℕ) (h : EventHandler World Event) (commands : List (Command World Event))
        (spec spec' : Spec World Event) (world world' : World) (outcomes : List Bool)
        → Runs commands
            (record spec { subscribers = with_subscriber topic h spec.subscribers })
            world
            spec'
            world'
            outcomes
        → Runs (subscribing topic h ∷ commands) spec world spec' world' outcomes
    publishes :
        (topic : ℕ) (event : Event) (commands : List (Command World Event))
        (spec spec' : Spec World Event) (world world' world'' : World) (returned : Bool)
        (outcomes : List Bool)
        → Delivers event (spec.subscribers topic) world world' returned
        → Runs commands
            (record spec { log = spec.log ++ (event ∷ []) })
            world'
            spec'
            world''
            outcomes
        → Runs (publishing topic event ∷ commands) spec world spec' world'' (returned ∷ outcomes)

  -- The commands on the bus; for each publication, whether it returned.
  unfoldable pub run :
      List (Command World Event)
      → InMemoryEventBus World Event
      → World
      → InMemoryEventBus World Event × (World × List Bool)
  unfolding subscribe publish
  run [] bus world = (bus, (world, []))
  run (subscribing topic h ∷ commands) bus world = run commands (subscribe topic h bus) world
  run (publishing topic event ∷ commands) bus world =
      let (bus', (world', returned)) = publish topic event bus world in
      let (bus'', (world'', later)) = run commands bus' world' in
      (bus'', (world'', returned ∷ later))

  listed-add :
      (topic t : ℕ) (h : EventHandler World Event) (hs : Handlers World Event)
      → listed (handlers_of t (add_handler topic h hs))
        ≡ with_subscriber topic h (λ x. listed (handlers_of x hs)) t
  unfolding handlers_of add_handler
  listed-add topic t h [] = ground arith
  listed-add topic t h ((x, old) ∷ hs) = ground (arith, listed-add topic t h hs)

  subscribed :
      (topic : ℕ) (h : EventHandler World Event) (bus : InMemoryEventBus World Event)
      → view (subscribe topic h bus)
        ≡ record (view bus) { subscribers = with_subscriber topic h (view bus).subscribers }
  unfolding subscribe
  subscribed topic h bus =
      ap (λ subs. record { subscribers = subs; log = bus.published_events })
        (fun_ext (λ t. listed-add topic t h bus.handlers))

  abbrev logged : Event → InMemoryEventBus World Event → InMemoryEventBus World Event
  logged event bus = record bus { published_events = bus.published_events ++ (event ∷ []) }

  -- The first handler has given `x`; the others are heard where it returned.
  first_heard :
      (h : EventHandler World Event) (hs : List (EventHandler World Event)) (event : Event)
      (world : World) (x : World × Bool) (rest : World × Bool)
      → h event world ≡ x
      → Delivers event hs x.0 rest.0 rest.1
      → Delivers event
          (h ∷ hs)
          world
          (if x.1 then rest else (x.0, false)).0
          (if x.1 then rest else (x.0, false)).1
  first_heard h hs event world (world', true) rest e k = heard h hs world world' rest.0 rest.1 e k
  first_heard h hs event world (world', false) rest e k = raised h hs world world' e

  delivered :
      (hs : List (EventHandler World Event)) (event : Event) (world : World)
      → Delivers event hs world (run_handlers hs event world).0 (run_handlers hs event world).1
  unfolding run_handlers
  delivered [] event world = all_heard world
  delivered (h ∷ hs) event world =
      first_heard h hs event world (h event world) (run_handlers hs event (h event world).0) refl
        (delivered hs event (h event world).0)

  delivered_topic :
      (o : Option (List (EventHandler World Event))) (event : Event) (world : World)
      → Delivers event (listed o) world (run_topic o event world).0 (run_topic o event world).1
  unfolding run_handlers
  delivered_topic none event world = all_heard world
  delivered_topic (some hs) event world = delivered hs event world

  -- Any run of subscriptions and publications on a bus is a run on the abstract bus that it stands
  -- for, with the same state and outcomes: every event reaches the subscribers of its topic in the
  -- order of their subscription, up to the first that raises.
  pub run_refines :
      (commands : List (Command World Event)) (bus : InMemoryEventBus World Event) (world : World)
      → Runs commands
          (view bus)
          world
          (view (run commands bus world).0)
          (run commands bus world).1.0
          (run commands bus world).1.1
  unfolding run publish
  run_refines [] bus world = ended (view bus) world
  run_refines (subscribing topic h ∷ commands) bus world =
      subscribes topic h commands (view bus) _ world _ _ (
        subst
          (λ spec.
            Runs commands spec world (view (run commands (subscribe topic h bus) world).0)
              (run commands (subscribe topic h bus) world).1.0
              (run commands (subscribe topic h bus) world).1.1)
          (subscribed topic h bus) (run_refines commands (subscribe topic h bus) world))
  run_refines (publishing topic event ∷ commands) bus world =
      publishes topic event commands (view bus) _ world _ _ _ _
        (delivered_topic (handlers_of topic bus.handlers) event world)
        (run_refines commands (logged event bus) _)
