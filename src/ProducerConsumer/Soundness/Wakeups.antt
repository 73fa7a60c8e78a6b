-- ===== src/ProducerConsumer/Soundness/Wakeups.antt =====
-- Which calls are asleep: no notification is lost.
use flashlight.Prelude.{
  ℕ, zero, suc, ◌<◌, ◌≤◌, ◌≡◌, refl, ap, true, false, not, List, [], ◌∷◌, ◌++◌, some, none, length,
  arith, Bool-cases, Option-cases, inl, inr, leb→le, ==_iff, if◌then◌else◌, if_true, if_false,
  zero-cases, List-cases,
}
use flashlight.Prelude.Int.{to_size_t}
use flashlight.ProducerConsumer.{Queue, is_full, is_empty, add, can_get, get, pop}
use flashlight.ProducerConsumer.Signal.{notify_one_producer, notify_one_consumer}
use flashlight.ProducerConsumer.Threads.{
  Calls, choose, wake_producer, wake_consumer, notify, notify_each,
}

module _ {ℓ} {T : Type ℓ} where
  choose-none : (i : ℕ) (xs : List T) → choose i xs ≡ none → length xs ≡ 0
  unfolding choose
  choose-none i [] h = refl
  choose-none i (x ∷ []) h = absurd (ground arith)
  choose-none zero (x ∷ y ∷ ys) h = absurd (ground arith)
  choose-none (suc i) (x ∷ y ∷ ys) h = elim (Option-cases (choose i (y ∷ ys))) [
    | inl e ↦ absurd (omega (arith, choose-none i (y ∷ ys) e))
    | inr (z, e) ↦ absurd (ground arith)
  ]

  choose-some :
      (i : ℕ) (xs : List T) (y : T) (ys : List T)
      → choose i xs ≡ some (y, ys)
      → length xs ≡ suc (length ys)
  unfolding choose
  choose-some i [] y ys h = absurd (ground arith)
  choose-some i (x ∷ []) y ys h = let e : ys ≡ [] = ground arith in rw e refl
  choose-some zero (x ∷ z ∷ zs) y ys h = let e : ys ≡ z ∷ zs = ground arith in rw e refl
  choose-some (suc i) (x ∷ z ∷ zs) y ys h = elim (Option-cases (choose i (z ∷ zs))) [
    | inl e ↦ absurd (ground arith)
    | inr ((v, vs), e) ↦
        let same : ys ≡ x ∷ vs = ground arith in rw same (ap suc (choose-some i (z ∷ zs) v vs e))
  ]

  -- No call has gone to sleep, and none has left.
  record IsWoken (c d : Calls T) : Type 0 where
    adding_le : length c.adding ≤ length d.adding
    blocked_ge : length d.blocked ≤ length c.blocked
    getting_le : c.getting ≤ d.getting
    starved_ge : d.starved ≤ c.starved

  IsWoken-refl : (c : Calls T) → IsWoken c c
  IsWoken-refl c = record {
    adding_le = omega arith;
    blocked_ge = omega arith;
    getting_le = omega arith;
    starved_ge = omega arith;
  }

  wake_producer-IsWoken : (who : ℕ) (c : Calls T) → IsWoken c (wake_producer who c)
  unfolding wake_producer
  wake_producer-IsWoken who c = elim (Option-cases (choose who c.blocked)) [
    | inl e ↦ rw (e, wake_producer) (IsWoken-refl c)
    | inr ((unit, rest), e) ↦
        let shorter : length c.blocked ≡ suc (length rest) =
          choose-some who c.blocked unit rest e in
        rw (e, wake_producer)
          record {
            adding_le = omega arith;
            blocked_ge = omega (arith, shorter);
            getting_le = omega arith;
            starved_ge = omega arith;
          }
  ]

  wake_consumer-IsWoken : (c : Calls T) → IsWoken c (wake_consumer c)
  unfolding wake_consumer
  wake_consumer-IsWoken c = elim (zero-cases c.starved) [
    | inl e ↦
        rw (e, wake_consumer)
          record {
            adding_le = omega arith;
            blocked_ge = omega arith;
            getting_le = omega arith;
            starved_ge = omega arith;
          }
    | inr (n, e) ↦
        rw (e, wake_consumer)
          record {
            adding_le = omega arith;
            blocked_ge = omega arith;
            getting_le = omega arith;
            starved_ge = omega (arith, e);
          }
  ]

  -- A notification that finds a sleeper leaves a call awake.
  wake_producer-adding :
      (who : ℕ) (c : Calls T) → 0 < length c.blocked → 0 < length (wake_producer who c).adding
  unfolding wake_producer
  wake_producer-adding who c asleep = elim (Option-cases (choose who c.blocked)) [
    | inl e ↦ absurd (omega (arith, choose-none who c.blocked e, asleep))
    | inr ((unit, rest), e) ↦ rw (e, wake_producer, length) (omega arith)
  ]

  wake_consumer-getting : (c : Calls T) → 0 < c.starved → 0 < (wake_consumer c).getting
  unfolding wake_consumer
  wake_consumer-getting c h = elim (zero-cases c.starved) [
    | inl e ↦ absurd (omega (arith, e, h))
    | inr (n, e) ↦ rw (e, wake_consumer) (omega arith)
  ]

  -- A call of `get` that can return is awake if one is asleep.
  pub record ConsumersAwake (q : Queue T) (c : Calls T) : Type 0 where
    pub finished_awake : q.is_adding_finished ≡ true → c.starved ≡ 0
    pub consumer_awake : 0 < length q.queue → 0 < c.starved → 0 < c.getting

  -- A call of `add` that can return is awake if one is asleep and adding is not finished.
  pub record ProducersAwake (q : Queue T) (c : Calls T) : Type 0 where
    pub producer_awake :
        q.is_adding_finished ≡ false
        → length q.queue < to_size_t q.max_size
        → 0 < length c.blocked
        → 0 < length c.adding

  ConsumersAwake-IsWoken :
      (q : Queue T) (c d : Calls T) → ConsumersAwake q c → IsWoken c d → ConsumersAwake q d
  ConsumersAwake-IsWoken q c d awake woken = record {
    finished_awake = λ f. omega (arith, awake.finished_awake f, woken.starved_ge);
    consumer_awake = λ some_item asleep.
        let before : 0 < c.starved = omega (arith, woken.starved_ge, asleep) in
        omega (arith, awake.consumer_awake some_item before, woken.getting_le);
  }

  ProducersAwake-IsWoken :
      (q : Queue T) (c d : Calls T) → ProducersAwake q c → IsWoken c d → ProducersAwake q d
  ProducersAwake-IsWoken q c d awake woken = record {
    producer_awake = λ f room asleep.
        let before : 0 < length c.blocked = omega (arith, woken.blocked_ge, asleep) in
        omega (arith, awake.producer_awake f room before, woken.adding_le);
  }

  pub wake_consumer-ConsumersAwake :
      (q : Queue T) (c : Calls T)
      → (q.is_adding_finished ≡ true → c.starved ≡ 0)
      → ConsumersAwake q (wake_consumer c)
  wake_consumer-ConsumersAwake q c h =
      let woken : IsWoken c (wake_consumer c) = wake_consumer-IsWoken c in
      record {
        finished_awake = λ f. omega (arith, h f, woken.starved_ge);
        consumer_awake =
            λ _ asleep. wake_consumer-getting c (omega (arith, woken.starved_ge, asleep));
      }

  pub wake_producer-ProducersAwake :
      (who : ℕ) (q : Queue T) (c : Calls T) → ProducersAwake q (wake_producer who c)
  wake_producer-ProducersAwake who q c = record {
    producer_awake = λ _ _ asleep.
        let woken : IsWoken c (wake_producer who c) = wake_producer-IsWoken who c in
        wake_producer-adding who c (omega (arith, woken.blocked_ge, asleep));
  }

  pub add-finished :
      (unit : T) (q : Queue T) → q.is_adding_finished ≡ true → add unit q ≡ (q, false, [])
  unfolding add
  add-finished unit q e = if_true q.is_adding_finished _ _ e

  pub add-open :
      (unit : T) (q : Queue T)
      → q.is_adding_finished ≡ false
      → add unit q ≡ (
        record q { queue = q.queue ++ (unit ∷ []) },
        true,
        (if not (is_full (record q { queue = q.queue ++ (unit ∷ []) }))
              then notify_one_producer ∷ []
              else [])
            ++ (notify_one_consumer ∷ []),
      )
  unfolding add
  add-open unit q e = if_false q.is_adding_finished _ _ e

  pub get-nil : (q : Queue T) → q.queue ≡ [] → get q ≡ (q, none, [])
  unfolding get pop
  get-nil q e = ap (pop q) e

  pub get-cons :
      (q : Queue T) (unit : T) (rest : List T)
      → q.queue ≡ unit ∷ rest
      → get q ≡ (
        record q { queue = rest },
        some unit,
        (if not (is_empty (record q { queue = rest })) then notify_one_consumer ∷ [] else [])
            ++ (notify_one_producer ∷ []),
      )
  unfolding get pop
  get-cons q unit rest e = ap (pop q) e

  -- A full queue keeps its producers waiting.
  full-ProducersAwake : (q : Queue T) (c : Calls T) → is_full q ≡ true → ProducersAwake q c
  unfolding is_full
  full-ProducersAwake q c full = record {
    producer_awake =
        λ _ room. absurd (omega (arith, leb→le (to_size_t q.max_size) (length q.queue) full, room));
  }

  -- An empty queue that is not finished keeps its consumers waiting.
  empty-ConsumersAwake :
      (q : Queue T) (c : Calls T)
      → is_empty q ≡ true
      → (q.is_adding_finished ≡ true → c.starved ≡ 0)
      → ConsumersAwake q c
  unfolding is_empty
  empty-ConsumersAwake q c empty finished = record {
    finished_awake = finished;
    consumer_awake =
        λ some_item. absurd (omega (arith, (==_iff (length q.queue) 0).0 empty, some_item));
  }

  pub wake_producer-ConsumersAwake :
      (who : ℕ) (q : Queue T) (c : Calls T)
      → ConsumersAwake q c
      → ConsumersAwake q (wake_producer who c)
  wake_producer-ConsumersAwake who q c awake =
      ConsumersAwake-IsWoken q c _ awake (wake_producer-IsWoken who c)

  pub wake_consumer-ProducersAwake :
      (q : Queue T) (c : Calls T) → ProducersAwake q c → ProducersAwake q (wake_consumer c)
  wake_consumer-ProducersAwake q c awake =
      ProducersAwake-IsWoken q c _ awake (wake_consumer-IsWoken c)

  -- A turn of `add` that returns. The call itself is no longer counted.
  pub add-Awake :
      (who : ℕ) (unit : T) (q : Queue T) (c : Calls T)
      → ConsumersAwake q c
      → ConsumersAwake (add unit q).0 (notify_each who (add unit q).2 c)
        × ProducersAwake (add unit q).0 (notify_each who (add unit q).2 c)
  unfolding notify_each notify
  add-Awake who unit q c consumers = elim (Bool-cases q.is_adding_finished) [
    | inl e ↦
        rw (add-finished unit q e)
          (consumers, record { producer_awake = λ f. absurd (ground arith) })
    | inr e ↦
        let pushed : Queue T = record q { queue = q.queue ++ (unit ∷ []) } in
        rw (add-open unit q e) (elim (Bool-cases (is_full pushed)) [
          | inl full ↦ rw full (
            wake_consumer-ConsumersAwake pushed c consumers.finished_awake,
            full-ProducersAwake pushed _ full,
          )
          | inr room ↦
              let c' : Calls T = wake_producer who c in
              rw room (
                wake_consumer-ConsumersAwake pushed c' (λ f. absurd (ground arith)),
                ProducersAwake-IsWoken pushed c' _ (wake_producer-ProducersAwake who pushed c)
                    (wake_consumer-IsWoken c'),
              )
        ])
  ]

  -- A turn of `get` that returns.
  pub get-Awake :
      (who : ℕ) (q : Queue T) (c : Calls T)
      → can_get q ≡ true
      → (q.is_adding_finished ≡ true → c.starved ≡ 0)
      → ConsumersAwake (get q).0 (notify_each who (get q).2 c)
        × ProducersAwake (get q).0 (notify_each who (get q).2 c)
  unfolding can_get is_empty notify_each notify
  get-Awake who q c can finished = elim (List-cases q.queue) [
    | inl e ↦
        let empty : is_empty q ≡ true = rw (e, is_empty) refl in
        let done : q.is_adding_finished ≡ true = ground arith in
        rw (get-nil q e) (
          empty-ConsumersAwake q c empty finished,
          record { producer_awake = λ f. absurd (ground arith) },
        )
    | inr (unit, rest, e) ↦
        let popped : Queue T = record q { queue = rest } in
        rw (get-cons q unit rest e) (elim (Bool-cases (is_empty popped)) [
          | inl empty ↦ rw empty (
            ConsumersAwake-IsWoken popped c _ (empty-ConsumersAwake popped c empty finished)
                (wake_producer-IsWoken who c),
            wake_producer-ProducersAwake who popped c,
          )
          | inr more ↦
              let c' : Calls T = wake_consumer c in
              rw more (
                ConsumersAwake-IsWoken popped c' _ (wake_consumer-ConsumersAwake popped c finished)
                    (wake_producer-IsWoken who c'),
                wake_producer-ProducersAwake who popped c',
              )
        ])
  ]
