-- ===== src/MessageQueue/Order.antt =====
-- What the pulls of a queue receive: the messages pushed before the stream was closed, in order.
use mathlib.Core.List.{append-nil, append_assoc}
use dsh_yawn.Base.{
  ℕ, ◌+◌, eqb, Option, some, ◌≡◌, refl, ap, Bool, true, false, none, List, [], ◌∷◌, ◌++◌, ◌⊎◌,
  arith, inl,
}
use dsh_yawn.MessageQueue.{
  MessageQueue, Settled, delivered, done, rejected, Call, push, close, next, throw, return, empty,
  step, run,
}

abbrev pub one : Bool → ℕ
one true = 1
one false = 0

abbrev pub waits : ℕ → Option ℕ → ℕ
waits p none = 0
waits p (some q) = one (eqb q p)

module _ {ℓ} {T : Type ℓ} where
  -- The messages that pulls received, in the order of delivery.
  abbrev pub messages : List (Settled T) → List T
  messages [] = []
  messages (delivered p m ∷ ss) = m ∷ messages ss
  messages (_ ∷ ss) = messages ss

  -- The messages pushed before the stream was first closed, by any of its three ends.
  abbrev pub sent : List (Call T) → List T
  sent [] = []
  sent (push m ∷ cs) = m ∷ sent cs
  sent (next p ∷ cs) = sent cs
  sent (_ ∷ cs) = []

  abbrev sent_from : Bool → List (Call T) → List T
  sent_from true cs = []
  sent_from false cs = sent cs

  -- A pull waits only on an open stream with nothing buffered, and a failed stream has ended.
  pub record IsQueue (q : MessageQueue T) : Type ℓ where
    pub idle : (q.waiting ≡ none) ⊎ (q.buffered ≡ [])
    pub open_wait : (q.waiting ≡ none) ⊎ (q.ended ≡ false)
    pub failed_ended : (q.failure ≡ none) ⊎ (q.ended ≡ true)

  empty-IsQueue : IsQueue empty
  unfolding empty
  empty-IsQueue = record { idle = inl refl; open_wait = inl refl; failed_ended = inl refl }

  step-IsQueue : (q : MessageQueue T) (c : Call T) → IsQueue q → IsQueue (step q c).0
  unfolding step
  step-IsQueue q (push m) v = ground arith
  step-IsQueue q close v = ground arith
  step-IsQueue q (next p) v = ground arith
  step-IsQueue q (throw p e) v = ground arith
  step-IsQueue q (return p) v = ground arith

  messages-append : (xs ys : List (Settled T)) → messages (xs ++ ys) ≡ messages xs ++ messages ys
  messages-append [] ys = refl
  messages-append (delivered p m ∷ xs) ys = ap (◌∷◌ m) (messages-append xs ys)
  messages-append (_ ∷ xs) ys = messages-append xs ys

  -- One call moves the front of what is owed to the pulls, and adds what it pushed.
  step-messages :
      (q : MessageQueue T) (c : Call T) (cs : List (Call T))
      → IsQueue q
      → messages (step q c).1 ++ ((step q c).0.buffered ++ sent_from (step q c).0.ended cs)
        ≡ q.buffered ++ sent_from q.ended (c ∷ cs)
  unfolding step
  step-messages q (push m) cs v =
      ground (arith, append_assoc q.buffered (m ∷ []) (sent cs), append-nil q.buffered)
  step-messages q close cs v = ground (arith, append-nil q.buffered)
  step-messages q (next p) cs v = ground (arith, append-nil q.buffered)
  step-messages q (throw p e) cs v = ground (arith, append-nil q.buffered)
  step-messages q (return p) cs v = ground (arith, append-nil q.buffered)

  run-messages :
      (q : MessageQueue T) (cs : List (Call T))
      → IsQueue q
      → messages (run q cs).1 ++ (run q cs).0.buffered ≡ q.buffered ++ sent_from q.ended cs
  unfolding run
  run-messages q [] v = ground (arith, append-nil q.buffered)
  run-messages q (c ∷ cs) v =
      let now = (step q c).1 in
      let q' = (step q c).0 in
      let later = run q' cs in
      rw
        (
          messages-append now later.1,
          append_assoc (messages now) (messages later.1) later.0.buffered,
        )
        (rw (run-messages q' cs (step-IsQueue q c v)) (step-messages q c cs v))

  run-IsQueue : (q : MessageQueue T) (cs : List (Call T)) → IsQueue q → IsQueue (run q cs).0
  unfolding run
  run-IsQueue q [] v = v
  run-IsQueue q (c ∷ cs) v = run-IsQueue (step q c).0 cs (step-IsQueue q c v)

  -- For every sequence of calls on a new queue, what the pulls received, followed by what is still
  -- buffered, is exactly the messages pushed before the stream was first closed, in their order:
  -- none is lost, repeated or overtaken.
  pub messages-run :
      (cs : List (Call T)) → messages (run empty cs).1 ++ (run empty cs).0.buffered ≡ sent cs
  unfolding empty
  messages-run cs = run-messages empty cs empty-IsQueue

  -- How many calls handed out the promise `p`, and how often it was settled.
  abbrev pub asked : ℕ → List (Call T) → ℕ
  asked p [] = 0
  asked p (push m ∷ cs) = asked p cs
  asked p (close ∷ cs) = asked p cs
  asked p (next q ∷ cs) = one (eqb q p) + asked p cs
  asked p (throw q e ∷ cs) = one (eqb q p) + asked p cs
  asked p (return q ∷ cs) = one (eqb q p) + asked p cs

  abbrev pub answers : ℕ → List (Settled T) → ℕ
  answers p [] = 0
  answers p (delivered q m ∷ ss) = one (eqb q p) + answers p ss
  answers p (done q ∷ ss) = one (eqb q p) + answers p ss
  answers p (rejected q e ∷ ss) = one (eqb q p) + answers p ss

  -- The consumer pulls again only after its last pull was settled.
  abbrev pub Alone : Option ℕ → Call T → Type 0
  Alone waiting (next p) = waiting ≡ none
  Alone waiting _ = Unit

  abbrev pub OneAtATime : MessageQueue T → List (Call T) → Type 0
  OneAtATime q [] = Unit
  OneAtATime q (c ∷ cs) = Alone q.waiting c × OneAtATime (step q c).0 cs

  answers-append :
      (p : ℕ) (xs ys : List (Settled T)) → answers p (xs ++ ys) ≡ answers p xs + answers p ys
  answers-append p [] ys = omega arith
  answers-append p (delivered q m ∷ xs) ys = omega (arith, answers-append p xs ys)
  answers-append p (done q ∷ xs) ys = omega (arith, answers-append p xs ys)
  answers-append p (rejected q e ∷ xs) ys = omega (arith, answers-append p xs ys)

  step-answers :
      (p : ℕ) (q : MessageQueue T) (c : Call T) (cs : List (Call T))
      → Alone q.waiting c
      → asked p (c ∷ cs) + waits p q.waiting
        ≡ answers p (step q c).1 + (waits p (step q c).0.waiting + asked p cs)
  unfolding step
  step-answers p q (push m) cs alone = ground (arith, alone)
  step-answers p q close cs alone = ground (arith, alone)
  step-answers p q (next r) cs alone = ground (arith, alone)
  step-answers p q (throw r e) cs alone = ground (arith, alone)
  step-answers p q (return r) cs alone = ground (arith, alone)

  run-answers :
      (p : ℕ) (q : MessageQueue T) (cs : List (Call T))
      → OneAtATime q cs
      → asked p cs + waits p q.waiting ≡ answers p (run q cs).1 + waits p (run q cs).0.waiting
  unfolding run
  run-answers p q [] alone = refl
  run-answers p q (c ∷ cs) (a, alone) = omega (
    arith,
    step-answers p q c cs a,
    run-answers p (step q c).0 cs alone,
    answers-append p (step q c).1 (run (step q c).0 cs).1,
  )

  -- If the consumer pulls again only after its last pull was settled, every promise that a new queue
  -- hands out is settled exactly once, but for one pull that waits on an open stream with nothing
  -- buffered.
  pub run-settles :
      (cs : List (Call T)) (p : ℕ)
      → OneAtATime empty cs
      → (asked p cs ≡ answers p (run empty cs).1 + waits p (run empty cs).0.waiting)
        × ((((run empty cs).0.waiting ≡ none) ⊎ ((run empty cs).0.ended ≡ false))
            × (((run empty cs).0.waiting ≡ none) ⊎ ((run empty cs).0.buffered ≡ [])))
  unfolding empty
  run-settles cs p alone =
      let v = run-IsQueue empty cs empty-IsQueue in
      (omega (arith, run-answers p empty cs alone), (v.open_wait, v.idle))
