-- ===== src/Worker/Writer.antt =====
-- src/connections/workers/ConnectionWorker.cpp, thread_write_to_source: what is written of the
-- messages that are put into the queue, and what keeps the thread from writing and from ending.
use shovel_server.Base.{
  ℕ, ◌<◌, ◌≡◌, refl, sym, ap, ◌∙◌, subst, ◌⊎◌, inl, inr, true, false, ◌||◌, not, Option, none, some,
  List, [], ◌∷◌, ◌++◌, map, map-append, append_assoc, append-nil, arith, ℤ, ◌==◌, Bool-cases,
  length, All, length-take, is_negative,
}
use shovel_server.Worker.{
  WriteRound, Writing, WriteState, goes_on, ended, writes, write_until_done, cut, after_writing,
  write_message, arrive, write_round, thread_write_to_source, magnitude,
}

abbrev pub arrived : List WriteRound → List (List ℕ)
arrived [] = []
arrived (x ∷ rest) = x.arrivals ++ arrived rest

-- All messages in order, cut to the size of the thread's array: those written, then those pending.
abbrev pub stream : Writing → List (List ℕ) → List (List ℕ)
stream w more = w.written ++ map cut (w.pending ++ more)

-- The state that a round ends in.
abbrev pub state_of : WriteState → Writing
state_of (goes_on w) = w
state_of (ended w) = w
state_of (writes w) = w

stream-append : (w : Writing) (a b : List (List ℕ)) → stream w (a ++ b) ≡ stream w a ++ map cut b
stream-append w a b =
    rw
      (
        sym (append_assoc w.pending a b),
        map-append cut (w.pending ++ a) b,
        sym (append_assoc w.written (map cut (w.pending ++ a)) (map cut b)),
      )
      refl

stream-nil : (w : Writing) → stream w [] ≡ w.written ++ map cut w.pending
stream-nil w = rw (append-nil w.pending) refl

after_writing-stream :
    (w : Writing) (m : List ℕ) (ms : List (List ℕ)) (answer : Option ℤ)
    → w.pending ≡ m ∷ ms
    → stream w [] ≡ stream (state_of (after_writing w m ms answer)) []
unfolding after_writing
after_writing-stream w m ms none e = refl
after_writing-stream w m ms (some a) e = elim (Bool-cases (is_negative a)) [
  | inl n ↦ rw n refl
  | inr n ↦ rw (n, e) (sym (append_assoc w.written (cut m ∷ []) (map cut (ms ++ []))))
]

write_message-stream :
    (w : Writing) (pending : List (List ℕ)) (answers : List ℤ)
    → w.pending ≡ pending
    → stream w [] ≡ stream (state_of (write_message w pending answers)) []
unfolding write_message
write_message-stream w [] answers e = refl
write_message-stream w (m ∷ ms) answers e = elim (Bool-cases (length (cut m) == 0)) [
  | inl z ↦ rw z refl
  | inr z ↦ rw z (after_writing-stream w m ms (write_until_done answers) e)
]

write_round-stream :
    (w : Writing) (x : WriteRound) → stream w x.arrivals ≡ stream (state_of (write_round w x)) []
unfolding write_round
write_round-stream w x =
    let w' = arrive w x.arrivals in
    sym (stream-nil w') ∙ (elim (Bool-cases (not x.goes_on || not x.goes_on_after)) [
      | inl e ↦ rw e refl
      | inr e ↦ rw e (write_message-stream w' w'.pending x.answers refl)
    ])

-- What a run over the rounds ends with: every message that was in the queue at the start, or was put
-- there in the rounds that were reached, has been written or is pending, in the same order.
pub data Keeps (w : Writing) (rounds : List WriteRound) : WriteState → Type 0 where
  all_seen : (w' : Writing) → stream w (arrived rounds) ≡ stream w' [] → Keeps w rounds (goes_on w')
  ends :
      (w' : Writing) (seen unseen : List WriteRound)
      → rounds ≡ seen ++ unseen
      → stream w (arrived seen) ≡ stream w' []
      → Keeps w rounds (ended w')
  still_writes :
      (w' : Writing) (seen unseen : List WriteRound)
      → rounds ≡ seen ++ unseen
      → stream w (arrived seen) ≡ stream w' []
      → Keeps w rounds (writes w')

stream-later :
    (w w' : Writing) (a b : List (List ℕ))
    → stream w a ≡ stream w' []
    → stream w (a ++ b) ≡ stream w' b
stream-later w w' a b e =
    stream-append w a b ∙ (ap (λ t. t ++ map cut b) e ∙ sym (stream-append w' [] b))

Keeps-extend :
    (w w' : Writing) (x : WriteRound) (rest : List WriteRound) (st : WriteState)
    → stream w x.arrivals ≡ stream w' []
    → Keeps w' rest st
    → Keeps w (x ∷ rest) st
Keeps-extend w w' x rest _ e (all_seen v s) =
    all_seen v (stream-later w w' x.arrivals (arrived rest) e ∙ s)
Keeps-extend w w' x rest _ e (ends v seen unseen r s) =
    ends v (x ∷ seen) unseen (ap (λ t. x ∷ t) r) (stream-later w w' x.arrivals (arrived seen) e ∙ s)
Keeps-extend w w' x rest _ e (still_writes v seen unseen r s) =
    still_writes v (x ∷ seen) unseen (ap (λ t. x ∷ t) r)
      (stream-later w w' x.arrivals (arrived seen) e ∙ s)

run_on-Keeps :
    (w : Writing) (x : WriteRound) (rest : List WriteRound) (st : WriteState)
    → write_round w x ≡ st
    → stream w x.arrivals ≡ stream (state_of st) []
    → ((w' : Writing) → Keeps w' rest (thread_write_to_source w' rest))
    → Keeps w (x ∷ rest) (thread_write_to_source w (x ∷ rest))
unfolding thread_write_to_source
run_on-Keeps w x rest (goes_on w') e s f =
    let e' : thread_write_to_source w (x ∷ rest) ≡ thread_write_to_source w' rest =
      rw (thread_write_to_source, e) refl in
    subst (Keeps w (x ∷ rest)) (sym e')
      (Keeps-extend w w' x rest (thread_write_to_source w' rest) s (f w'))
run_on-Keeps w x rest (ended w') e s f =
    let e' : thread_write_to_source w (x ∷ rest) ≡ ended w' = rw (thread_write_to_source, e) refl in
    subst (Keeps w (x ∷ rest)) (sym e') (ends w' (x ∷ []) rest refl (rw (append-nil x.arrivals) s))
run_on-Keeps w x rest (writes w') e s f =
    let e' : thread_write_to_source w (x ∷ rest) ≡ writes w' =
      rw (thread_write_to_source, e) refl in
    subst (Keeps w (x ∷ rest)) (sym e')
      (still_writes w' (x ∷ []) rest refl (rw (append-nil x.arrivals) s))

-- The writing thread loses, repeats and reorders no message of its queue, on every answer of the
-- destination, stops and failures included: those that were there at the start or are put there in
-- the rounds that are reached are the ones written, followed by the ones pending, when each is cut to
-- 65535 bytes. While the thread goes on, all rounds are reached.
pub writer-Keeps :
    (rounds : List WriteRound) (w : Writing) → Keeps w rounds (thread_write_to_source w rounds)
unfolding thread_write_to_source
writer-Keeps [] w = all_seen w refl
writer-Keeps (x ∷ rest) w =
    run_on-Keeps w x rest (write_round w x) refl (write_round-stream w x) (writer-Keeps rest)

abbrev pub IsZero : ℤ → Type 0
IsZero a = magnitude a ≡ 0

write_until_done-zeros : (answers : List ℤ) → All IsZero answers → write_until_done answers ≡ none
unfolding write_until_done
write_until_done-zeros [] h = refl
write_until_done-zeros (a ∷ rest) (h, hs) =
    rw (write_until_done, h) (write_until_done-zeros rest hs)

write_message-zeros :
    (w : Writing) (m : List ℕ) (ms : List (List ℕ)) (answers : List ℤ)
    → 0 < length m
    → All IsZero answers
    → write_message w (m ∷ ms) answers ≡ writes w
unfolding write_message after_writing
write_message-zeros w m ms answers l h =
    let z : (length (cut m) == 0) ≡ false = rw (length-take 65535 m) (ground arith) in
    rw (z, write_until_done-zeros answers h) refl

stuck_round :
    (w : Writing) (x : WriteRound) (m : List ℕ) (ms : List (List ℕ))
    → x.goes_on ≡ true
    → x.goes_on_after ≡ true
    → w.pending ++ x.arrivals ≡ m ∷ ms
    → 0 < length m
    → All IsZero x.answers
    → write_round w x ≡ writes (arrive w x.arrivals)
unfolding write_round
stuck_round w x m ms g a p l h =
    let e : write_round w x
        ≡ write_message (arrive w x.arrivals) (w.pending ++ x.arrivals) x.answers =
      rw (write_round, g, a) refl in
    e
    ∙ (ap (λ t. write_message (arrive w x.arrivals) t x.answers) p
        ∙ write_message-zeros (arrive w x.arrivals) m ms x.answers l h)

-- A thread that has begun to write a message that is not empty, and is answered 0 only, never ends,
-- also when it is asked to stop or the reading thread has ended: it is still writing, whatever the
-- flags would be in the rounds to come.
pub writer_ignores_stop :
    (w : Writing) (x : WriteRound) (rest : List WriteRound) (m : List ℕ) (ms : List (List ℕ))
    → x.goes_on ≡ true
    → x.goes_on_after ≡ true
    → w.pending ++ x.arrivals ≡ m ∷ ms
    → 0 < length m
    → All IsZero x.answers
    → thread_write_to_source w (x ∷ rest) ≡ writes (arrive w x.arrivals)
unfolding thread_write_to_source
writer_ignores_stop w x rest m ms g a p l h =
    rw (thread_write_to_source, stuck_round w x m ms g a p l h) refl

abbrev pub HasEmptyFirst : Writing → Type 0
HasEmptyFirst w = (ms : List (List ℕ)) × (w.pending ≡ [] ∷ ms)

empty_round :
    (w : Writing) (x : WriteRound) (ms : List (List ℕ))
    → w.pending ≡ [] ∷ ms
    → (write_round w x ≡ ended (arrive w x.arrivals))
      ⊎ (write_round w x ≡ goes_on (arrive w x.arrivals))
unfolding write_round write_message
empty_round w x ms e = elim (Bool-cases (not x.goes_on || not x.goes_on_after)) [
  | inl s ↦ inl (rw s refl)
  | inr s ↦ inr (rw (s, e) refl)
]

-- A message of no bytes at the head of the queue stays there, and nothing is written any more.
empty_message_blocks :
    (rounds : List WriteRound) (w : Writing) (ms : List (List ℕ))
    → w.pending ≡ [] ∷ ms
    → let w' = state_of (thread_write_to_source w rounds) in
      (w'.written ≡ w.written) × HasEmptyFirst w'
unfolding thread_write_to_source
empty_message_blocks [] w ms e = (refl, (ms, e))
empty_message_blocks (x ∷ rest) w ms e = elim (empty_round w x ms e) [
  | inl r ↦ rw (thread_write_to_source, r) (refl, (ms ++ x.arrivals, rw e refl))
  | inr r ↦
      rw (thread_write_to_source, r)
        (empty_message_blocks rest (arrive w x.arrivals) (ms ++ x.arrivals) (rw e refl))
]
