-- ===== src/ProducerConsumer/Soundness.antt =====
-- What holds of a queue and its threads whatever the order of their turns.
pub mod Wakeups
use flashlight.Prelude.{
  ℕ, zero, suc, ◌+◌, ◌<◌, ◌≤◌, ◌≡◌, refl, sym, ap, ◌∙◌, Bool, true, false, not, List, [], ◌∷◌, ◌++◌,
  Option, some, none, length, length-append, append_assoc, arith, Bool-cases, Option-cases, inl,
  inr, leb, leb→le, ◌||◌, ◌==◌, if◌then◌else◌, if_true, if_false, List-cases,
}
use flashlight.Prelude.Int.{to_size_t, ℤ}
use flashlight.ProducerConsumer.{
  new_queue, Queue, is_full, can_add, add, can_get, is_empty, get, finish_adding, clear,
}
use flashlight.ProducerConsumer.Threads.{
  Calls, World, Event, extract, notify, notify_each, add_step, get_step, get_one, step, run, start,
}
use flashlight.ProducerConsumer.Soundness.Wakeups.{
  ConsumersAwake, ProducersAwake, add-Awake, get-Awake, add-finished, add-open, get-nil, get-cons,
  wake_producer-ConsumersAwake, wake_producer-ProducersAwake, wake_consumer-ProducersAwake,
  wake_consumer-ConsumersAwake,
}

module _ {ℓ} {T : Type ℓ} where
  -- Elements leave in the order in which they came, within the size of the queue, and no
  -- notification is lost.
  pub record IsSound (w : World T) : Type ℓ where
    pub in_order : w.accepted ≡ w.delivered ++ w.shared.queue
    pub within : length w.shared.queue ≤ to_size_t w.shared.max_size
    pub consumers : ConsumersAwake w.shared w.calls
    pub producers : ProducersAwake w.shared w.calls

  start-IsSound : (max_size : ℤ) → IsSound (start {T = T} (new_queue max_size))
  start-IsSound max_size = record {
    in_order = refl;
    within = omega arith;
    consumers = record { finished_awake = λ _. refl; consumer_awake = λ h _. absurd (omega arith) };
    producers = record { producer_awake = λ _ _ h. absurd (omega arith) };
  }

  add-in_order :
      (unit : T) (q : Queue T) (accepted delivered : List T)
      → accepted ≡ delivered ++ q.queue
      → (if (add unit q).1 then accepted ++ (unit ∷ []) else accepted)
        ≡ delivered ++ (add unit q).0.queue
  add-in_order unit q accepted delivered h = elim (Bool-cases q.is_adding_finished) [
    | inl e ↦ rw (add-finished unit q e) h
    | inr e ↦ rw (add-open unit q e, h) (append_assoc delivered q.queue (unit ∷ []))
  ]

  add-within :
      (unit : T) (q : Queue T)
      → can_add q ≡ true
      → length q.queue ≤ to_size_t q.max_size
      → length (add unit q).0.queue ≤ to_size_t (add unit q).0.max_size
  unfolding can_add is_full
  add-within unit q can h = elim (Bool-cases q.is_adding_finished) [
    | inl e ↦ rw (add-finished unit q e) h
    | inr e ↦
        let room : leb (to_size_t q.max_size) (length q.queue) ≡ false = ground arith in
        rw (add-open unit q e) (ground (arith, length-append q.queue (unit ∷ [])))
  ]

  get-in_order :
      (q : Queue T) (delivered : List T)
      → delivered ++ q.queue
        ≡ (elim (get q).1 [ none ↦ delivered | some x ↦ delivered ++ (x ∷ []) ]) ++ (get q).0.queue
  get-in_order q delivered = elim (List-cases q.queue) [
    | inl e ↦ rw (get-nil q e) refl
    | inr (unit, rest, e) ↦
        rw (get-cons q unit rest e, e) (sym (append_assoc delivered (unit ∷ []) rest))
  ]

  get-within :
      (q : Queue T)
      → length q.queue ≤ to_size_t q.max_size
      → length (get q).0.queue ≤ to_size_t (get q).0.max_size
  get-within q h = elim (List-cases q.queue) [
    | inl e ↦ rw (get-nil q e) h
    | inr (unit, rest, e) ↦ rw (get-cons q unit rest e) (omega (arith, h, ap length e))
  ]

  add_step-IsSound :
      (who : ℕ) (unit : T) (others : List T) (w : World T)
      → length w.calls.adding ≡ suc (length others)
      → IsSound w
      → IsSound (add_step who unit others w)
  unfolding add_step can_add is_full
  add_step-IsSound who unit others w taken sound =
      let free : Calls T = record w.calls { adding = others } in
      let consumers : ConsumersAwake w.shared free = record {
        finished_awake = sound.consumers.finished_awake;
        consumer_awake = sound.consumers.consumer_awake;
      } in
      elim (Bool-cases (can_add w.shared)) [
        | inl can ↦ rw can record {
          in_order = add-in_order unit w.shared w.accepted w.delivered sound.in_order;
          within = add-within unit w.shared can sound.within;
          consumers = (add-Awake who unit w.shared free consumers).0;
          producers = (add-Awake who unit w.shared free consumers).1;
        }
        | inr cannot ↦ rw cannot record {
          in_order = sound.in_order;
          within = sound.within;
          consumers = record {
            finished_awake = sound.consumers.finished_awake;
            consumer_awake = sound.consumers.consumer_awake;
          };
          producers = record { producer_awake = λ f room. ground arith };
        }
      ]

  get_step-IsSound :
      (who others : ℕ) (w : World T)
      → w.calls.getting ≡ suc others
      → IsSound w
      → IsSound (get_step who others w)
  unfolding get_step can_get is_empty
  get_step-IsSound who others w taken sound =
      let free : Calls T = record w.calls { getting = others } in
      elim (Bool-cases (can_get w.shared)) [
        | inl can ↦
            let awake = get-Awake who w.shared free can sound.consumers.finished_awake in
            rw can record {
              in_order = sound.in_order ∙ get-in_order w.shared w.delivered;
              within = get-within w.shared sound.within;
              consumers = awake.0;
              producers = awake.1;
            }
        | inr cannot ↦ rw cannot record {
          in_order = sound.in_order;
          within = sound.within;
          consumers = record {
            finished_awake = λ f. absurd (ground arith);
            consumer_awake = λ some_item. absurd (ground arith);
          };
          producers = record { producer_awake = sound.producers.producer_awake };
        }
      ]

  get_one-IsSound :
      (who n : ℕ) (w : World T) → w.calls.getting ≡ n → IsSound w → IsSound (get_one who n w)
  unfolding get_one
  get_one-IsSound who zero w e sound = sound
  get_one-IsSound who (suc others) w e sound = get_step-IsSound who others w e sound

  extract-some :
      (i : ℕ) (xs : List T) (y : T) (ys : List T)
      → extract i xs ≡ some (y, ys)
      → length xs ≡ suc (length ys)
  unfolding extract
  extract-some i [] y ys h = absurd (ground arith)
  extract-some zero (x ∷ xs) y ys h = let e : ys ≡ xs = ground arith in rw e refl
  extract-some (suc i) (x ∷ xs) y ys h = elim (Option-cases (extract i xs)) [
    | inl e ↦ absurd (ground arith)
    | inr ((z, zs), e) ↦
        let same : ys ≡ x ∷ zs = ground arith in rw same (ap suc (extract-some i xs z zs e))
  ]

  -- Every event keeps a queue and its threads sound.
  pub step-IsSound : (e : Event T) (w : World T) → IsSound w → IsSound (step e w)
  unfolding step finish_adding clear notify_each notify
  step-IsSound (Event.call_add unit) w sound = record {
    in_order = sound.in_order;
    within = sound.within;
    consumers = record {
      finished_awake = sound.consumers.finished_awake;
      consumer_awake = sound.consumers.consumer_awake;
    };
    producers = record { producer_awake = λ _ _ _. omega arith };
  }
  step-IsSound Event.call_get w sound = record {
    in_order = sound.in_order;
    within = sound.within;
    consumers = record {
      finished_awake = sound.consumers.finished_awake;
      consumer_awake = λ _ _. omega arith;
    };
    producers = record { producer_awake = sound.producers.producer_awake };
  }
  step-IsSound (Event.add_turn i who) w sound = elim (Option-cases (extract i w.calls.adding)) [
    | inl e ↦ rw (e, step) sound
    | inr ((unit, others), e) ↦
        rw (e, step)
          (add_step-IsSound who unit others w (extract-some i w.calls.adding unit others e) sound)
  ]
  step-IsSound (Event.get_turn who) w sound = get_one-IsSound who w.calls.getting w refl sound
  step-IsSound (Event.spurious_producer who) w sound = record {
    in_order = sound.in_order;
    within = sound.within;
    consumers = wake_producer-ConsumersAwake who w.shared w.calls sound.consumers;
    producers = wake_producer-ProducersAwake who w.shared w.calls;
  }
  step-IsSound Event.spurious_consumer w sound = record {
    in_order = sound.in_order;
    within = sound.within;
    consumers = wake_consumer-ConsumersAwake w.shared w.calls sound.consumers.finished_awake;
    producers = wake_consumer-ProducersAwake w.shared w.calls sound.producers;
  }
  step-IsSound (Event.call_finish_adding who) w sound = record {
    in_order = sound.in_order;
    within = sound.within;
    consumers = record { finished_awake = λ _. refl; consumer_awake = λ _ h. absurd (omega arith) };
    producers = record { producer_awake = λ f. absurd (ground arith) };
  }
  step-IsSound (Event.call_clear who) w sound = record {
    in_order = refl;
    within = omega arith;
    consumers = record { finished_awake = λ _. refl; consumer_awake = λ h. absurd (omega arith) };
    producers = record { producer_awake = λ _ _ h. absurd (omega arith) };
  }

  run-IsSound : (es : List (Event T)) (w : World T) → IsSound w → IsSound (run es w)
  unfolding run
  run-IsSound [] w sound = sound
  run-IsSound (e ∷ es) w sound = run-IsSound es (step e w) (step-IsSound e w sound)

  -- Whatever the events and their order, the elements that were added since the last `clear` are
  -- those that were delivered since, in the same order, followed by those in the queue, and the queue
  -- holds no more than its size. A call of `get` that can return is awake if one is asleep, and so is
  -- a call of `add` while adding is not finished.
  pub run-start-IsSound :
      (max_size : ℤ) (es : List (Event T)) → IsSound (run es (start (new_queue max_size)))
  run-start-IsSound max_size es = run-IsSound es _ (start-IsSound max_size)
