-- ===== src/Ring/Spsc/Serial.antt =====
-- When what two threads at the ring of src/containers/RingQueue.cpp answer is what the queue of
-- `Ring.Fifo` answers when it is asked in the order in which their calls take effect.
use shovel_server.Base.{
  ℕ, ◌≡◌, refl, subst, Option, some, List, [], ◌∷◌, ◌++◌, map, map-append, All,
}
use shovel_server.Ring.{Op, Reply}
use shovel_server.Ring.Fifo
use shovel_server.Ring.Spsc.{Producer, Consumer, Answer, Return, System}
use shovel_server.Ring.Spsc.Invariant.{PutFits, AskFits, Inv}

-- A reply without the status, which the threads overwrite for one another.
abbrev pub answer_in : Reply → Answer
answer_in (r, buf, status) = (r, buf)

abbrev pub calls_of : List Return → List Op
calls_of history = map (λ x. x.call) history

abbrev pub answers_of : List Return → List Answer
answers_of history = map (λ x. x.answer) history

-- The queue of `Ring.Fifo`, asked as in `history`, answers the same and is left with `ms`.
abbrev pub IsSerial : ℕ → List (List ℕ) → List Return → List (List ℕ) → Type 0
IsSerial cap start history ms =
    let (replies, left) = Fifo.run cap start (calls_of history) in
    (map answer_in replies ≡ answers_of history) × (left ≡ ms)

-- One more call.
Fifo_run-append :
    (cap : ℕ) (ops : List Op) (op : Op) (start : List (List ℕ))
    → let (rs, ms) = Fifo.run cap start ops in
      Fifo.run cap start (ops ++ op ∷ [])
      ≡ (rs ++ (Fifo.step cap ms op).0 ∷ [], (Fifo.step cap ms op).1)
unfolding Fifo.run
Fifo_run-append cap [] op start = refl
Fifo_run-append cap (x ∷ ops) op start =
    rw (Fifo_run-append cap ops op (Fifo.step cap start x).1) refl

pub IsSerial-more :
    (cap : ℕ) (start : List (List ℕ)) (history : List Return) (ms : List (List ℕ)) (x : Return)
    (ms' : List (List ℕ))
    → IsSerial cap start history ms
    → answer_in (Fifo.step cap ms x.call).0 ≡ x.answer
    → (Fifo.step cap ms x.call).1 ≡ ms'
    → IsSerial cap start (history ++ x ∷ []) ms'
IsSerial-more cap start history ms x ms' (e, l) a l' =
    rw
      (
        map-append (λ (x : Return). x.call) history (x ∷ []),
        map-append (λ (x : Return). x.answer) history (x ∷ []),
        Fifo_run-append cap (calls_of history) x.call start,
      )
      (rw
        (
          l,
          map-append answer_in (Fifo.run cap start (calls_of history)).0
              ((Fifo.step cap ms x.call).0 ∷ []),
          e,
          a,
        )
        (refl, l'))

-- The state between two steps.
pub record Good (cap : ℕ) (start : List (List ℕ)) (s : System) : Type 0 where
  pub held : List (List ℕ)
  pub total : s.ring.total_count ≡ cap
  pub inv :
      Inv cap s.ring.ring_vector s.ring.index_in s.ring.index_out s.ring.base.size s.producer
        s.consumer held
  pub serial : IsSerial cap start s.history held
  pub puts_fit : All PutFits s.puts
  pub asks_fit : All AskFits s.asks

-- A step raises no exception and leaves a good state.
abbrev pub Steps : ℕ → List (List ℕ) → Option System → Type 0
Steps cap start r = (s' : System) × (r ≡ some s') × Good cap start s'

module _ (cap : ℕ) (start : List (List ℕ)) (s : System) (g : Good cap start s) where
  abbrev pub InvAt : Producer → Consumer → Type 0
  InvAt p c =
      Inv cap s.ring.ring_vector s.ring.index_in s.ring.index_out s.ring.base.size p c g.held

  pub at_producer : (p : Producer) → s.producer ≡ p → InvAt p s.consumer
  at_producer p e = subst (λ p. InvAt p s.consumer) e g.inv

  pub at_consumer : (c : Consumer) → s.consumer ≡ c → InvAt s.producer c
  at_consumer c e = subst (λ c. InvAt s.producer c) e g.inv

  pub at_both : (p : Producer) (c : Consumer) → s.producer ≡ p → s.consumer ≡ c → InvAt p c
  at_both p c e e' = subst (λ p. InvAt p c) e (at_consumer c e')
