-- ===== src/ProducerConsumer/Progress.antt =====
-- What the next turn brings about: no call waits for what has already happened.
use flashlight.Prelude.{
  ℕ, zero, suc, ◌+◌, ◌<◌, ◌≡◌, refl, ap, true, false, List, [], ◌∷◌, ◌++◌, length, arith, inl, inr,
  zero-cases, List-cases,
}
use flashlight.Prelude.Int.{to_size_t, ℤ}
use flashlight.ProducerConsumer.{new_queue, is_full, is_empty, can_add, can_get}
use flashlight.ProducerConsumer.Threads.{
  World, Event, extract, add_step, get_step, get_one, step, run, start,
}
use flashlight.ProducerConsumer.Soundness.{IsSound, run-start-IsSound}
use flashlight.ProducerConsumer.Soundness.Wakeups.{add-open, get-cons}

module _ {ℓ} {T : Type ℓ} where
  get_step-delivered :
      (who others : ℕ) (w : World T) (front : T) (rest : List T)
      → w.shared.queue ≡ front ∷ rest
      → (get_step who others w).delivered ≡ w.delivered ++ (front ∷ [])
  unfolding get_step can_get is_empty
  get_step-delivered who others w front rest e =
      let long : length w.shared.queue ≡ suc (length rest) = ap length e in
      let can : can_get w.shared ≡ true = ground arith in
      rw (can, get-cons w.shared front rest e) refl

  get_one-delivered :
      (who n : ℕ) (w : World T) (front : T) (rest : List T)
      → 0 < n
      → w.shared.queue ≡ front ∷ rest
      → (get_one who n w).delivered ≡ w.delivered ++ (front ∷ [])
  unfolding get_one
  get_one-delivered who zero w front rest h e = absurd (omega arith)
  get_one-delivered who (suc others) w front rest h e = get_step-delivered who others w front rest e

  add_step-accepted :
      (who : ℕ) (unit : T) (others : List T) (w : World T)
      → w.shared.is_adding_finished ≡ false
      → length w.shared.queue < to_size_t w.shared.max_size
      → (add_step who unit others w).accepted ≡ w.accepted ++ (unit ∷ [])
  unfolding add_step can_add is_full
  add_step-accepted who unit others w f room =
      let can : can_add w.shared ≡ true = ground arith in rw (can, add-open unit w.shared f) refl

  -- While the queue holds an element, a call of `get` that has not returned leaves one awake, and the
  -- next turn of an awake call returns the element at the front.
  pub get_progress :
      (max_size : ℤ) (es : List (Event T)) (w : World T) (who : ℕ) (front : T) (rest : List T)
      → run es (start (new_queue max_size)) ≡ w
      → w.shared.queue ≡ front ∷ rest
      → 0 < w.calls.getting + w.calls.starved
      → (0 < w.calls.getting)
        × ((step (Event.get_turn who) w).delivered ≡ w.delivered ++ (front ∷ []))
  unfolding step
  get_progress max_size es w who front rest reached e waiting =
      let sound : IsSound w = rw reached at (run-start-IsSound max_size es) in
      let long : length w.shared.queue ≡ suc (length rest) = ap length e in
      let awake : 0 < w.calls.getting = elim (zero-cases w.calls.starved) [
        | inl none_asleep ↦ omega (arith, waiting, none_asleep)
        | inr (n, asleep) ↦
            sound.consumers.consumer_awake (omega (arith, long)) (omega (arith, asleep))
      ] in
      (awake, get_one-delivered who w.calls.getting w front rest awake e)

  -- While there is room and adding is not finished, a call of `add` that has not returned leaves one
  -- awake, and the next turn of an awake call puts its element into the queue.
  pub add_progress :
      (max_size : ℤ) (es : List (Event T)) (w : World T) (who : ℕ)
      → run es (start (new_queue max_size)) ≡ w
      → w.shared.is_adding_finished ≡ false
      → length w.shared.queue < to_size_t w.shared.max_size
      → 0 < length w.calls.adding + length w.calls.blocked
      → (unit : T) × (others : List T) × (w.calls.adding ≡ unit ∷ others)
        × ((step (Event.add_turn 0 who) w).accepted ≡ w.accepted ++ (unit ∷ []))
  unfolding step extract
  add_progress max_size es w who reached f room waiting =
      let sound : IsSound w = rw reached at (run-start-IsSound max_size es) in
      let awake : 0 < length w.calls.adding = elim (zero-cases (length w.calls.blocked)) [
        | inl none_asleep ↦ omega (arith, waiting, none_asleep)
        | inr (n, asleep) ↦ sound.producers.producer_awake f room (omega (arith, asleep))
      ] in
      elim (List-cases w.calls.adding) [
        | inl e ↦ absurd (omega (arith, awake, ap length e))
        | inr (unit, others, e) ↦
            (unit, others, e, rw (e, step, extract) (add_step-accepted who unit others w f room))
      ]
