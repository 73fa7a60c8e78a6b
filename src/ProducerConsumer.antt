-- ===== src/ProducerConsumer.antt =====
-- flashlight/lib/common/ProducerConsumerQueue.h: what each call does to the queue between two waits,
-- and which condition variables it notifies. The mutex is held throughout such a piece.
pub mod Threads
pub mod Soundness
pub mod Progress
mod Tests
use flashlight.Prelude.{
  ℕ, ◌+◌, ◌-◌, ◌^◌, Bool, true, false, not, ◌||◌, List, [], ◌∷◌, ◌++◌, Option, some, none, length,
  leb, ◌==◌, if◌then◌else◌,
}
use flashlight.Prelude.Int.{to_size_t, ℤ, pos, negsuc}

pub record Queue {ℓ} (T : Type ℓ) : Type ℓ where
  pub queue : List T
  pub max_size : ℤ
  pub is_adding_finished : Bool

-- The constructor.
abbrev pub new_queue {ℓ} : {T : Type ℓ} → ℤ → Queue T
new_queue max_size = record { queue = []; max_size = max_size; is_adding_finished = false }

pub data Signal : Type 0 where
  notify_one_producer notify_one_consumer notify_all_producers notify_all_consumers : Signal

module _ {ℓ} {T : Type ℓ} where
  unfoldable pub is_full : Queue T → Bool
  is_full q = leb (to_size_t q.max_size) (length q.queue)

  unfoldable pub is_empty : Queue T → Bool
  is_empty q = length q.queue == 0

  -- What `add` waits for.
  unfoldable pub can_add : Queue T → Bool
  unfolding is_full
  can_add q = not (is_full q) || q.is_adding_finished

  -- `add` after its wait: the queue, whether the element went in, and the notifications in order.
  unfoldable pub add : T → Queue T → Queue T × Bool × List Signal
  unfolding is_full
  add unit q =
      if q.is_adding_finished
      then (q, false, [])
      else (let pushed = record q { queue = q.queue ++ (unit ∷ []) } in
          (
            pushed,
            true,
            (if not (is_full pushed) then Signal.notify_one_producer ∷ [] else [])
                ++ (Signal.notify_one_consumer ∷ []),
          ))

  -- What `get` waits for.
  unfoldable pub can_get : Queue T → Bool
  unfolding is_empty
  can_get q = not (is_empty q) || q.is_adding_finished

  unfoldable pub pop : Queue T → List T → Queue T × Option T × List Signal
  unfolding is_empty
  pop q [] = (q, none, [])
  pop q (unit ∷ rest) =
      let popped = record q { queue = rest } in
      (
        popped,
        some unit,
        (if not (is_empty popped) then Signal.notify_one_consumer ∷ [] else [])
            ++ (Signal.notify_one_producer ∷ []),
      )

  -- `get` after its wait; `none` stands for a return of false.
  unfoldable pub get : Queue T → Queue T × Option T × List Signal
  unfolding pop
  get q = pop q q.queue

  unfoldable pub finish_adding : Queue T → Queue T × List Signal
  finish_adding q = (record q { is_adding_finished = true }, Signal.notify_all_consumers ∷ [])

  unfoldable pub clear : Queue T → Queue T × List Signal
  clear q = (
    record q { queue = []; is_adding_finished = false },
    Signal.notify_all_producers ∷ Signal.notify_all_consumers ∷ [],
  )
