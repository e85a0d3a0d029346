-- ===== src/MessageQueue.antt =====
-- control-plane/src/core/message-queue.ts: the request stream between a producer that pushes and
-- connect, which pulls. A promise that `next` returned and that is not settled yet is a number, and
-- what a call settles is its list of `Settled`, the call's own promise included.
pub mod Order
use dsh_yawn.Base.{
  ℕ, suc, ◌≡◌, String, Bool, true, false, Option, none, some, List, [], ◌∷◌, ◌++◌, ◌||◌, is_some,
  if◌then◌else◌,
}

module _ {ℓ} (T : Type ℓ) where
  pub record MessageQueue : Type ℓ where
    pub buffered : List T
    pub waiting : Option ℕ
    pub ended : Bool
    pub failure : Option String

  pub data Settled : Type ℓ where
    delivered : ℕ → T → Settled
    done : ℕ → Settled
    rejected : ℕ → String → Settled

  pub data Call : Type ℓ where
    push : T → Call
    close : Call
    next : ℕ → Call
    throw : ℕ → String → Call
    return : ℕ → Call

module _ {ℓ} {T : Type ℓ} where
  unfoldable pub empty : MessageQueue T
  empty = record { buffered = []; waiting = none; ended = false; failure = none }

  -- The message goes to the waiting pull, or to the end of the buffer; the `Bool` says whether the
  -- push was taken (`false` is the thrown "the request stream is closed").
  unfoldable pub enqueue : MessageQueue T → T → MessageQueue T × List (Settled T) × Bool
  enqueue q m = if q.ended || is_some q.failure then (q, [], false) else elim q.waiting [
    | none ↦ (record q { buffered = q.buffered ++ m ∷ []; waiting = none }, [], true)
    | some w ↦ (record q { waiting = none }, delivered w m ∷ [], true)
  ]

  unfoldable pub finish : MessageQueue T → MessageQueue T × List (Settled T)
  finish q = if q.ended then (q, []) else (
    record q { ended = true; waiting = none },
    elim q.waiting [ none ↦ [] | some w ↦ done w ∷ [] ],
  )

  -- `next` by its early returns: the failure first, then the buffer, then the end.
  unfoldable pub pull : MessageQueue T → List T → ℕ → MessageQueue T × List (Settled T)
  pull q [] p = if q.ended then (q, done p ∷ []) else (record q { waiting = some p }, [])
  pull q (m ∷ rest) p = (record q { buffered = rest }, delivered p m ∷ [])

  unfoldable pub dequeue : MessageQueue T → ℕ → MessageQueue T × List (Settled T)
  unfolding pull
  dequeue q p = elim q.failure [
    | some reason ↦ (q, rejected p reason ∷ [])
    | none ↦ pull q q.buffered p
  ]

  fail : MessageQueue T → ℕ → String → MessageQueue T × List (Settled T)
  fail q p reason = (
    record q { ended = true; failure = some reason; waiting = none },
    elim q.waiting [
      | none ↦ rejected p reason ∷ []
      | some w ↦ rejected w reason ∷ rejected p reason ∷ []
    ],
  )

  conclude : MessageQueue T → ℕ → MessageQueue T × List (Settled T)
  unfolding finish
  conclude q p = let (q', settled) = finish q in (q', settled ++ done p ∷ [])

  unfoldable pub step : MessageQueue T → Call T → MessageQueue T × List (Settled T)
  unfolding enqueue finish dequeue fail conclude
  step q (push m) = let (q', settled, taken) = enqueue q m in (q', settled)
  step q close = finish q
  step q (next p) = dequeue q p
  step q (throw p reason) = fail q p reason
  step q (return p) = conclude q p

  unfoldable pub run : MessageQueue T → List (Call T) → MessageQueue T × List (Settled T)
  run q [] = (q, [])
  run q (c ∷ cs) = let (q', now) = step q c in let (q'', later) = run q' cs in (q'', now ++ later)
