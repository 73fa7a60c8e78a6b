-- ===== src/ProducerConsumer/Threads.antt =====
-- The threads that share a queue: each takes turns under the mutex, sleeps on a condition variable
-- while what it waits for does not hold, and is woken by a notification or for no reason.
use flashlight.Prelude.{ℕ, zero, suc, ◌+◌, List, [], ◌∷◌, ◌++◌, Option, some, none, if◌then◌else◌}
use flashlight.ProducerConsumer.{Queue, Signal, can_add, add, can_get, get, finish_adding, clear}
use flashlight.ProducerConsumer.Signal.{
  notify_one_producer, notify_one_consumer, notify_all_producers, notify_all_consumers,
}

module _ {ℓ} {A : Type ℓ} where
  -- The element at a position, and the others.
  unfoldable pub extract : ℕ → List A → Option (A × List A)
  extract i [] = none
  extract zero (x ∷ xs) = some (x, xs)
  extract (suc i) (x ∷ xs) = elim (extract i xs) [ none ↦ none | some (y, ys) ↦ some (y, x ∷ ys) ]

  -- Any choice among sleepers: a number beyond the end stands for the last one.
  unfoldable pub choose : ℕ → List A → Option (A × List A)
  choose i [] = none
  choose i (x ∷ []) = some (x, [])
  choose zero (x ∷ y ∷ ys) = some (x, y ∷ ys)
  choose (suc i) (x ∷ y ∷ ys) = elim (choose i (y ∷ ys)) [
    | none ↦ none
    | some (z, zs) ↦ some (z, x ∷ zs)
  ]

-- The elements of the awake and the sleeping calls of `add`, and the numbers of awake and sleeping
-- calls of `get`.
pub record Calls {ℓ} (T : Type ℓ) : Type ℓ where
  pub adding : List T
  pub blocked : List T
  pub getting : ℕ
  pub starved : ℕ

-- The history since the last `clear`: what went into the queue, and what came out.
pub record World {ℓ} (T : Type ℓ) : Type ℓ where
  pub shared : Queue T
  pub calls : Calls T
  pub accepted : List T
  pub delivered : List T

-- A turn names the awake call that takes the mutex, and the sleeper that it would wake.
pub data Event {ℓ} (T : Type ℓ) : Type ℓ where
  call_add : T → Event T
  call_get : Event T
  add_turn : ℕ → ℕ → Event T
  get_turn : ℕ → Event T
  spurious_producer : ℕ → Event T
  spurious_consumer : Event T
  call_finish_adding : ℕ → Event T
  call_clear : ℕ → Event T

module _ {ℓ} {T : Type ℓ} where
  unfoldable pub wake_producer : ℕ → Calls T → Calls T
  wake_producer who c = elim (choose who c.blocked) [
    | none ↦ c
    | some (unit, rest) ↦ record c { adding = unit ∷ c.adding; blocked = rest }
  ]

  unfoldable pub wake_consumer : Calls T → Calls T
  wake_consumer c = elim c.starved [
    | zero ↦ c
    | suc n ↦ record c { getting = suc c.getting; starved = n }
  ]

  unfoldable pub notify : ℕ → Signal → Calls T → Calls T
  unfolding wake_producer wake_consumer
  notify who notify_one_producer c = wake_producer who c
  notify who notify_one_consumer c = wake_consumer c
  notify who notify_all_producers c = record c { adding = c.blocked ++ c.adding; blocked = [] }
  notify who notify_all_consumers c = record c { getting = c.starved + c.getting; starved = 0 }

  unfoldable pub notify_each : ℕ → List Signal → Calls T → Calls T
  unfolding notify
  notify_each who [] c = c
  notify_each who (s ∷ ss) c = notify_each who ss (notify who s c)

  unfoldable pub add_step : ℕ → T → List T → World T → World T
  unfolding can_add add notify_each
  add_step who unit others w =
      let free = record w.calls { adding = others } in
      if can_add w.shared
      then (let (after, entered, signals) = add unit w.shared in
          record w {
            shared = after;
            calls = notify_each who signals free;
            accepted = if entered then w.accepted ++ (unit ∷ []) else w.accepted;
          })
      else record w { calls = record free { blocked = unit ∷ free.blocked } }

  unfoldable pub get_step : ℕ → ℕ → World T → World T
  unfolding can_get get notify_each
  get_step who others w =
      let free = record w.calls { getting = others } in
      if can_get w.shared
      then (let (after, unit, signals) = get w.shared in
          record w {
            shared = after;
            calls = notify_each who signals free;
            delivered = elim unit [ none ↦ w.delivered | some x ↦ w.delivered ++ (x ∷ []) ];
          })
      else record w { calls = record free { starved = suc free.starved } }

  -- The turn of one of the awake calls of `get`.
  unfoldable pub get_one : ℕ → ℕ → World T → World T
  unfolding get_step
  get_one who zero w = w
  get_one who (suc others) w = get_step who others w

  unfoldable pub step : Event T → World T → World T
  unfolding extract add_step get_one wake_producer wake_consumer finish_adding clear notify_each
  step (Event.call_add unit) w = record w {
    calls = record w.calls { adding = unit ∷ w.calls.adding };
  }
  step Event.call_get w = record w { calls = record w.calls { getting = suc w.calls.getting } }
  step (Event.add_turn i who) w = elim (extract i w.calls.adding) [
    | none ↦ w
    | some (unit, others) ↦ add_step who unit others w
  ]
  step (Event.get_turn who) w = get_one who w.calls.getting w
  step (Event.spurious_producer who) w = record w { calls = wake_producer who w.calls }
  step Event.spurious_consumer w = record w { calls = wake_consumer w.calls }
  step (Event.call_finish_adding who) w =
      let (after, signals) = finish_adding w.shared in
      record w { shared = after; calls = notify_each who signals w.calls }
  step (Event.call_clear who) w =
      let (after, signals) = clear w.shared in
      record w {
        shared = after;
        calls = notify_each who signals w.calls;
        accepted = [];
        delivered = [];
      }

  unfoldable pub run : List (Event T) → World T → World T
  unfolding step
  run [] w = w
  run (e ∷ es) w = run es (step e w)

-- A queue that no thread has called yet.
abbrev pub start {ℓ} : {T : Type ℓ} → Queue T → World T
start q = record {
  shared = q;
  calls = record { adding = []; blocked = []; getting = 0; starved = 0 };
  accepted = [];
  delivered = [];
}
