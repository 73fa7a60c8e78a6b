-- ===== src/ProducerConsumer/Tests.antt =====
-- The theorems on the queue at concrete inputs, and runs of its threads.
use flashlight.Prelude.{ℕ, ◌<◌, ◌≡◌, refl, false, true, List, [], ◌∷◌, ◌++◌, arith}
use flashlight.Prelude.Int.{to_size_t, pos}
use flashlight.ProducerConsumer.{
  new_queue, is_full, is_empty, can_add, add, can_get, get, pop, finish_adding,
}
use flashlight.ProducerConsumer.Threads.{
  World, Event, choose, extract, wake_producer, wake_consumer, notify, notify_each, add_step,
  get_step, get_one, step, run, start,
}
use flashlight.ProducerConsumer.Threads.Event.{
  call_add, call_get, add_turn, get_turn, call_finish_adding,
}
use flashlight.ProducerConsumer.Soundness.{IsSound, run-start-IsSound}
use flashlight.ProducerConsumer.Progress.{get_progress, add_progress}

-- A consumer goes to sleep, and a producer adds two elements to a queue of two.
abbrev sleepy : List (Event ℕ)
sleepy = call_get ∷ get_turn 0 ∷ call_add 7 ∷ add_turn 0 0 ∷ call_add 8 ∷ add_turn 0 0 ∷ []

run-start-IsSound_example : IsSound (run sleepy (start (new_queue (pos 2))))
run-start-IsSound_example = run-start-IsSound (pos 2) sleepy

abbrev after_sleepy : World ℕ
after_sleepy = record {
  shared = record { queue = 7 ∷ 8 ∷ []; max_size = pos 2; is_adding_finished = false };
  calls = record { adding = []; blocked = []; getting = 1; starved = 0 };
  accepted = 7 ∷ 8 ∷ [];
  delivered = [];
}

slept : run sleepy (start (new_queue (pos 2))) ≡ after_sleepy
unfolding to_size_t is_full is_empty can_add add can_get get pop choose extract wake_producer
    wake_consumer notify notify_each add_step get_step get_one step run
slept = refl

get_progress_example :
    (0 < after_sleepy.calls.getting)
    × ((step (get_turn 0) after_sleepy).delivered ≡ after_sleepy.delivered ++ (7 ∷ []))
get_progress_example =
    get_progress (pos 2) sleepy after_sleepy 0 7 (8 ∷ []) slept refl (omega arith)

-- A producer that waited for room, and a consumer that made it.
abbrev made_room : List (Event ℕ)
made_room = call_add 7 ∷ add_turn 0 0 ∷ call_add 8 ∷ add_turn 0 0 ∷ call_get ∷ get_turn 0 ∷ []

abbrev after_made_room : World ℕ
after_made_room = record {
  shared = record { queue = []; max_size = pos 1; is_adding_finished = false };
  calls = record { adding = 8 ∷ []; blocked = []; getting = 0; starved = 0 };
  accepted = 7 ∷ [];
  delivered = 7 ∷ [];
}

room_made : run made_room (start (new_queue (pos 1))) ≡ after_made_room
unfolding to_size_t is_full is_empty can_add add can_get get pop choose extract wake_producer
    wake_consumer notify notify_each add_step get_step get_one step run
room_made = refl

to_size_t_one : to_size_t (pos 1) ≡ 1
unfolding to_size_t
to_size_t_one = refl

add_progress_example :
    (unit : ℕ) × (others : List ℕ) × (after_made_room.calls.adding ≡ unit ∷ others)
    × ((step (add_turn 0 0) after_made_room).accepted ≡ after_made_room.accepted ++ (unit ∷ []))
add_progress_example =
    add_progress (pos 1) made_room after_made_room 0 room_made refl (omega (arith, to_size_t_one))
      (omega arith)

-- Two producers that wait for room.
abbrev two_waiting : List (Event ℕ)
two_waiting = call_add 7 ∷ add_turn 0 0 ∷ call_add 8 ∷ add_turn 0 0 ∷ call_add 9 ∷ add_turn 0 0 ∷ []

-- Two producers asleep on a full queue when adding is finished. The turns of the consumers wake the
-- first, which returns and notifies nobody, so the second stays asleep.
stranded :
    run
      (two_waiting
        ++ (call_finish_adding 0
            ∷ call_get
            ∷ get_turn 0
            ∷ add_turn 0 0
            ∷ call_get
            ∷ get_turn 0
            ∷ []))
      (start (new_queue (pos 1)))
    ≡ record {
      shared = record { queue = []; max_size = pos 1; is_adding_finished = true };
      calls = record { adding = []; blocked = 8 ∷ []; getting = 0; starved = 0 };
      accepted = 7 ∷ [];
      delivered = 7 ∷ [];
    }
unfolding to_size_t is_full is_empty can_add add can_get get pop finish_adding choose extract
    wake_producer wake_consumer notify notify_each add_step get_step get_one step run
stranded = refl
