-- ===== src/Ring/Spsc/Order.antt =====
-- Each of the two threads at the ring of src/containers/RingQueue.cpp makes its calls in their order, and
-- makes them in a bounded number of its own steps, whatever the other does.
use shovel_server.Base.{
  ℕ, suc, ◌+◌, ◌*◌, ◌≡◌, refl, ap, inl, inr, Bool, true, false, List, [], ◌∷◌, ◌++◌, map,
  if◌then◌else◌, Bool-cases, length,
}
use shovel_server.Ring.{Op, put_op, get_op, peek_op}
use shovel_server.Ring.Spsc.{
  Put, Ask, Producer, checking, storing, Consumer, looking, reading, System, Thread, producer,
  consumer, put_call, ask_call,
}
use shovel_server.Ring.Spsc.Serial.{calls_of}

abbrev pub is_put : Op → Bool
is_put (put_op buf n) = true
is_put (get_op buf n) = false
is_put (peek_op buf n) = false

-- The calls of one thread among some.
abbrev pub puts_in : List Op → List Op
puts_in [] = []
puts_in (op ∷ ops) = if is_put op then op ∷ puts_in ops else puts_in ops

abbrev pub asks_in : List Op → List Op
asks_in [] = []
asks_in (op ∷ ops) = if is_put op then asks_in ops else op ∷ asks_in ops

-- The call that a thread is making, if it has not taken effect.
abbrev pub put_in_hand : Producer → List Put
put_in_hand Producer.idle = []
put_in_hand (checking p) = p ∷ []
put_in_hand (storing p) = p ∷ []
put_in_hand (Producer.advancing p r) = p ∷ []
put_in_hand (Producer.counting p r) = p ∷ []
put_in_hand (Producer.refusing p) = []
put_in_hand (Producer.returning p r) = []

abbrev pub ask_in_hand : Consumer → List Ask
ask_in_hand Consumer.idle = []
ask_in_hand (looking a) = a ∷ []
ask_in_hand (reading a) = a ∷ []
ask_in_hand (Consumer.advancing a r) = a ∷ []
ask_in_hand (Consumer.counting a r) = a ∷ []
ask_in_hand (Consumer.refusing a) = []
ask_in_hand (Consumer.returning a r) = []

-- All calls of a thread, in order: those that have taken effect, the one that it makes, those to come.
abbrev pub all_puts : System → List Op
all_puts s = puts_in (calls_of s.history) ++ map put_call (put_in_hand s.producer ++ s.puts)

abbrev pub all_asks : System → List Op
all_asks s = asks_in (calls_of s.history) ++ map ask_call (ask_in_hand s.consumer ++ s.asks)

pub puts_in-append : (a b : List Op) → puts_in (a ++ b) ≡ puts_in a ++ puts_in b
puts_in-append [] b = refl
puts_in-append (op ∷ a) b = elim (Bool-cases (is_put op)) [
  | inl e ↦ rw e (ap (◌∷◌ op) (puts_in-append a b))
  | inr e ↦ rw e (puts_in-append a b)
]

pub asks_in-append : (a b : List Op) → asks_in (a ++ b) ≡ asks_in a ++ asks_in b
asks_in-append [] b = refl
asks_in-append (op ∷ a) b = elim (Bool-cases (is_put op)) [
  | inl e ↦ rw e (asks_in-append a b)
  | inr e ↦ rw e (ap (◌∷◌ op) (asks_in-append a b))
]

-- The steps that a thread has still to make, at most.
abbrev pub put_steps : Producer → List Put → ℕ
put_steps Producer.idle puts = 6 * length puts
put_steps (checking p) puts = 5 + 6 * length puts
put_steps (storing p) puts = 4 + 6 * length puts
put_steps (Producer.advancing p r) puts = 3 + 6 * length puts
put_steps (Producer.counting p r) puts = 2 + 6 * length puts
put_steps (Producer.refusing p) puts = 2 + 6 * length puts
put_steps (Producer.returning p r) puts = 1 + 6 * length puts

abbrev pub ask_steps : Consumer → List Ask → ℕ
ask_steps Consumer.idle asks = 6 * length asks
ask_steps (looking a) asks = 5 + 6 * length asks
ask_steps (reading a) asks = 4 + 6 * length asks
ask_steps (Consumer.advancing a r) asks = 3 + 6 * length asks
ask_steps (Consumer.counting a r) asks = 2 + 6 * length asks
ask_steps (Consumer.refusing a) asks = 2 + 6 * length asks
ask_steps (Consumer.returning a r) asks = 1 + 6 * length asks

-- How often each thread is scheduled.
abbrev pub turns_of_producer : List Thread → ℕ
turns_of_producer [] = 0
turns_of_producer (producer ∷ ts) = suc (turns_of_producer ts)
turns_of_producer (consumer ∷ ts) = turns_of_producer ts

abbrev pub turns_of_consumer : List Thread → ℕ
turns_of_consumer [] = 0
turns_of_consumer (producer ∷ ts) = turns_of_consumer ts
turns_of_consumer (consumer ∷ ts) = suc (turns_of_consumer ts)
