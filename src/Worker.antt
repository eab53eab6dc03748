-- ===== src/Worker.antt =====
-- src/connections/workers/ConnectionWorker.h and ConnectionWorker.cpp: the thread that reads from a
-- source, and the one that writes to it. What a thread meets from outside is a list of events: the
-- answers of its source and of its queue, and whether it may go on wherever it looks at the flags
-- (its queue is set, the other thread is alive and no stop is asked; none of these comes back). A wait for the source or the queue has no length.
pub mod Delivery
pub mod Reader
pub mod Progress
pub mod Counting
pub mod Writer
pub mod Source
pub mod Sink
pub mod Life
mod Tests
use shovel_server.Base.{
  ℕ, suc, ◌+◌, ◌%◌, ◌^◌, Bool, true, false, ◌&&◌, ◌||◌, not, Option, none, some, List, [], ◌∷◌,
  ◌++◌, ℤ, pos, negsuc, ◌==◌, if◌then◌else◌, length, take, is_negative,
}
use shovel_server.Parser
use shovel_server.Parser.{Parser, done, undefined_behaviour, out_of_fuel}

-- ConnectionWorker::connection_statistics; the counters are uint64_t.
pub record Statistics : Type 0 where
  pub total_sent_bytes : ℕ
  pub total_recv_bytes : ℕ
  pub chunk_sent_bytes : ℕ
  pub chunk_recv_bytes : ℕ
  pub last_check_time_msec : ℕ

abbrev pub to_uint64 : ℕ → ℕ
to_uint64 n = n % 2 ^ 64

unfoldable pub add_sent : Statistics → ℕ → Statistics
add_sent s count = record s {
  total_sent_bytes = to_uint64 (s.total_sent_bytes + count);
  chunk_sent_bytes = to_uint64 (s.chunk_sent_bytes + count);
}

unfoldable pub add_recv : Statistics → ℕ → Statistics
add_recv s count = record s {
  total_recv_bytes = to_uint64 (s.total_recv_bytes + count);
  chunk_recv_bytes = to_uint64 (s.chunk_recv_bytes + count);
}

-- What is handed out, and what is kept.
unfoldable pub get_connection_statistics : Statistics → ℕ → Statistics × Statistics
get_connection_statistics s req_time =
    (s, record s { last_check_time_msec = req_time; chunk_sent_bytes = 0; chunk_recv_bytes = 0 })

-- One call of the queue's `put` in the inner loop: its result, whether the thread may go on when it
-- looks next, and whether it may when it looks behind the loop.
pub record Attempt : Type 0 where
  pub put_status : ℕ
  pub goes_on : Bool
  pub goes_on_behind : Bool

-- The queue after a `put` with that result.
abbrev pub after_put : Attempt → List ℕ → List (List ℕ) → List (List ℕ)
after_put a m queued = if a.put_status == 0 then queued else queued ++ m ∷ []

-- How handing a datagram to the queue ends, with the queue: the thread goes on, with the attempts that
-- are left; or it breaks off; or it is still trying.
pub data Handed : Type 0 where
  handed : List (List ℕ) → List Attempt → Handed
  breaks_off : List (List ℕ) → Handed
  trying : List (List ℕ) → Handed

-- while (put_status <= 0) …, and the look at the flags behind it. A result of 0 leaves the queue as it is.
unfoldable pub hand_over : List Attempt → List ℕ → List (List ℕ) → Handed
hand_over [] m queued = trying queued
hand_over (a ∷ rest) m queued = elim (not a.goes_on || not (a.put_status == 0)) [
  | true ↦
      if a.goes_on && a.goes_on_behind
      then handed (after_put a m queued) rest
      else breaks_off (after_put a m queued)
  | false ↦ hand_over rest m queued
]

-- How handing all datagrams of one read ends, with the queue.
pub data Delivered : Type 0 where
  all_handed broken_off still_trying : List (List ℕ) → Delivered

unfoldable pub deliver : List Attempt → List (List ℕ) → List (List ℕ) → Delivered
unfolding hand_over
deliver attempts [] queued = all_handed queued
deliver attempts (m ∷ ms) queued = elim (hand_over attempts m queued) [
  | handed queued' rest ↦ deliver rest ms queued'
  | breaks_off queued' ↦ broken_off queued'
  | trying queued' ↦ still_trying queued'
]

-- One round of the reading loop: whether the thread may go on at its head, what the source answers
-- (the status and the bytes in the array), whether it may go on then, and the queue's answers.
pub record ReadRound : Type 0 where
  pub goes_on : Bool
  pub read_status : ℤ
  pub bytes : List ℕ
  pub goes_on_after : Bool
  pub attempts : List Attempt

-- The parser (if one is set), the statistics, and what the queue has taken, in order.
pub record Reading : Type 0 where
  pub parser : Option Parser
  pub statistics : Statistics
  pub queued : List (List ℕ)

unfoldable pub set_parser : Option Parser → Reading → Reading
set_parser parser r = record r { parser = parser }

-- After a round the thread goes on, or has ended, or is still trying to hand over; or the parser has
-- met undefined behaviour.
pub data ReadState : Type 0 where
  goes_on ended hands_over : Reading → ReadState
  undefined : ReadState

abbrev pub with_queued : Reading → List (List ℕ) → Reading
with_queued r q = record r { queued = q }

abbrev pub after_delivery : Reading → Delivered → ReadState
after_delivery r (all_handed q) = goes_on (with_queued r q)
-- The loop over the datagrams is left; the reading loop then looks at the flags again and ends.
after_delivery r (broken_off q) = ended (with_queued r q)
after_delivery r (still_trying q) = hands_over (with_queued r q)

unfoldable pub parse_round : Parser.Result → Reading → List Attempt → ReadState
unfolding deliver
parse_round (done p ms) r attempts =
    after_delivery (record r { parser = some p }) (deliver attempts ms r.queued)
parse_round undefined_behaviour r attempts = undefined
parse_round out_of_fuel r attempts = undefined

-- With no parser the bytes are put once, whatever the queue answers.
abbrev pub put_unparsed : Reading → List ℕ → List Attempt → ReadState
put_unparsed r bytes [] = hands_over r
put_unparsed r bytes (a ∷ _) = goes_on (with_queued r (after_put a bytes r.queued))

unfoldable pub process_bytes : Option Parser → Reading → List ℕ → List Attempt → ReadState
unfolding parse_round
process_bytes none r bytes attempts = put_unparsed r bytes attempts
process_bytes (some p) r bytes attempts = parse_round (Parser.put p bytes) r attempts

abbrev pub magnitude : ℤ → ℕ
magnitude (pos n) = n
magnitude (negsuc n) = suc n

unfoldable pub read_round : Reading → ReadRound → ReadState
unfolding process_bytes add_recv
read_round r x =
    if not x.goes_on
    then ended r
    else if is_negative x.read_status || not x.goes_on_after
    then ended r
    else if magnitude x.read_status == 0
    then goes_on r
    else process_bytes r.parser
        (record r { statistics = add_recv r.statistics (magnitude x.read_status) }) x.bytes
        x.attempts

-- thread_read_from_source, over the rounds that the environment gives.
unfoldable pub thread_read_from_source : Reading → List ReadRound → ReadState
unfolding read_round
thread_read_from_source r [] = goes_on r
thread_read_from_source r (x ∷ rest) = elim (read_round r x) [
  | goes_on r' ↦ thread_read_from_source r' rest
  | ended r' ↦ ended r'
  | hands_over r' ↦ hands_over r'
  | undefined ↦ undefined
]

-- One round of the writing loop: whether the thread may go on at its head, what others have put into
-- the queue by the time it looks, whether it may go on then, and the answers of the destination.
pub record WriteRound : Type 0 where
  pub goes_on : Bool
  pub arrivals : List (List ℕ)
  pub goes_on_after : Bool
  pub answers : List ℤ

-- The statistics, the messages in the queue, oldest first, and what has been written.
pub record Writing : Type 0 where
  pub statistics : Statistics
  pub pending : List (List ℕ)
  pub written : List (List ℕ)

-- After a round the thread goes on, or has ended, or is still trying to write.
pub data WriteState : Type 0 where
  goes_on ended writes : Writing → WriteState

-- while (write_status == 0) …: the first answer but 0, if there is one.
unfoldable pub write_until_done : List ℤ → Option ℤ
write_until_done [] = none
write_until_done (a ∷ rest) = elim (magnitude a == 0) [
  | true ↦ write_until_done rest
  | false ↦ some a
]

-- connection_worker_arr_size; `peek` gives no more of a message.
abbrev pub cut : List ℕ → List ℕ
cut m = take 65535 m

-- A failure leaves the message in the queue; the other answers take it out, with `get(…, 0)`.
unfoldable pub after_writing : Writing → List ℕ → List (List ℕ) → Option ℤ → WriteState
unfolding add_sent
after_writing w m ms none = writes w
after_writing w m ms (some a) =
    if is_negative a
    then ended w
    else goes_on (record {
      statistics = add_sent w.statistics (magnitude a);
      pending = ms;
      written = w.written ++ cut m ∷ [];
    })

unfoldable pub write_message : Writing → List (List ℕ) → List ℤ → WriteState
unfolding after_writing write_until_done
write_message w [] answers = goes_on w
write_message w (m ∷ ms) answers =
    if length (cut m) == 0 then goes_on w else after_writing w m ms (write_until_done answers)

abbrev pub arrive : Writing → List (List ℕ) → Writing
arrive w ms = record w { pending = w.pending ++ ms }

unfoldable pub write_round : Writing → WriteRound → WriteState
unfolding write_message
write_round w x =
    let w' = arrive w x.arrivals in
    if not x.goes_on || not x.goes_on_after then ended w' else write_message w' w'.pending x.answers

-- thread_write_to_source, over the rounds that the environment gives.
unfoldable pub thread_write_to_source : Writing → List WriteRound → WriteState
unfolding write_round
thread_write_to_source w [] = goes_on w
thread_write_to_source w (x ∷ rest) = elim (write_round w x) [
  | goes_on w' ↦ thread_write_to_source w' rest
  | ended w' ↦ ended w'
  | writes w' ↦ writes w'
]
