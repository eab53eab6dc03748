-- ===== src/Decorators/Monitor.antt =====
-- Mutexes, condition variables and the calls of other threads: the world in which a method of
-- src/containers/RingQueueBlockDecorators.cpp runs, and how its statements follow one another.
use shovel_server.Base.{
  ℕ, ◌≡◌, refl, ◌∙◌, Bool, true, false, ◌||◌, Option, none, some, List, [], ◌∷◌, ◌==◌,
  if◌then◌else◌, ==_iff,
}
use shovel_server.Ring
use shovel_server.Ring.{RingQueue, Op}

pub record World : Type 0 where
  pub ring : RingQueue
  pub wakeups : List (List Op)
  pub held : List ℕ
  pub notified : List ℕ

-- How far a call comes: it returns, is still waiting when the wake-ups are used up, locks a mutex
-- that its own thread holds (undefined in C++; it blocks for good), or meets an exception.
pub data Outcome (A : Type 0) : Type 0 where
  returns : A → World → Outcome A
  waits : World → Outcome A
  locks_twice : World → Outcome A
  throws : Outcome A

abbrev pub M : Type 0 → Type 0
M A = World → Outcome A

abbrev pub and_then : {A B : Type 0} → Outcome A → (A → M B) → Outcome B
and_then (returns a w) f = f a w
and_then (waits w) f = waits w
and_then (locks_twice w) f = locks_twice w
and_then throws f = throws

infixl 5 ◌>>=◌ ◌>>◌
abbrev pub ◌>>=◌ : {A B : Type 0} → M A → (A → M B) → M B
◌>>=◌ m f w = and_then (m w) f

abbrev pub ◌>>◌ : {B : Type 0} → M (Unit {0}) → M B → M B
m >> k = m >>= λ _. k

abbrev pub return : {A : Type 0} → A → M A
return a w = returns a w

abbrev pub contains : ℕ → List ℕ → Bool
contains k [] = false
contains k (x ∷ xs) = x == k || contains k xs

-- Construction of a `unique_lock`, and its destruction.
unfoldable pub lock : ℕ → M (Unit {0})
lock k w = if contains k w.held then locks_twice w else returns tt (record w { held = k ∷ w.held })

abbrev pub remove : ℕ → List ℕ → List ℕ
remove k [] = []
remove k (x ∷ xs) = if x == k then xs else x ∷ remove k xs

unfoldable pub unlock : ℕ → M (Unit {0})
unlock k w = returns tt (record w { held = remove k w.held })

unfoldable pub notify_one : ℕ → M (Unit {0})
notify_one k w = returns tt (record w { notified = k ∷ w.notified })

-- Other threads' calls. One that throws does so in its own thread.
unfoldable pub disturb : RingQueue → List Op → RingQueue
disturb q ops = elim (Ring.run q ops) [ none ↦ q | some (_, q') ↦ q' ]

abbrev pub settle : {A : Type 0} → World → Option (A × RingQueue) → Outcome A
settle w none = throws
settle w (some (a, q)) = returns a (record w { ring = q })

-- A method of the ring.
abbrev pub on_ring : {A : Type 0} → (RingQueue → Option (A × RingQueue)) → M A
on_ring f w = settle w (f w.ring)

-- std::unique_lock over the rest of the method.
abbrev pub locked : {A : Type 0} → ℕ → M (Unit {0}) → M A → M A
locked k wait body = do lock k; wait; a ← body; unlock k; return a

-- auto res = inner; condition->notify_one(); return res;
abbrev pub notifying : {A : Type 0} → ℕ → M A → M A
notifying k inner = do res ← inner; notify_one k; return res

-- How a sequence goes on, from what its first part does.
module _ {A B : Type 0} (m : M A) (f : A → M B) (w : World) where
  pub >>=_returns : (a : A) (w' : World) → m w ≡ returns a w' → (m >>= f) w ≡ f a w'
  >>=_returns a w' e = rw (e, ◌>>=◌)

  pub >>=_waits : (w' : World) → m w ≡ waits w' → (m >>= f) w ≡ waits w'
  >>=_waits w' e = rw (e, ◌>>=◌)

  pub >>=_locks_twice : (w' : World) → m w ≡ locks_twice w' → (m >>= f) w ≡ locks_twice w'
  >>=_locks_twice w' e = rw (e, ◌>>=◌)

pub lock_free :
    (k : ℕ) (w : World)
    → contains k w.held ≡ false
    → lock k w ≡ returns tt (record w { held = k ∷ w.held })
unfolding lock
lock_free k w e = rw (e, if◌then◌else◌)

pub lock_held : (k : ℕ) (w : World) → contains k w.held ≡ true → lock k w ≡ locks_twice w
unfolding lock
lock_held k w e = rw (e, if◌then◌else◌)

module _ {A : Type 0} (k : ℕ) (wait : M (Unit {0})) (body : M A) (w : World) where
  -- Once the wait is over, what is left is the body and the release of the mutex.
  pub locked_returns :
      (w' : World)
      → contains k w.held ≡ false
      → wait (record w { held = k ∷ w.held }) ≡ returns tt w'
      → locked k wait body w ≡ (do a ← body; unlock k; return a) w'
  locked_returns w' free e =
      >>=_returns (lock k) _ w tt (record w { held = k ∷ w.held }) (lock_free k w free)
      ∙ >>=_returns wait _ (record w { held = k ∷ w.held }) tt w' e

  pub locked_waits :
      (w' : World)
      → contains k w.held ≡ false
      → wait (record w { held = k ∷ w.held }) ≡ waits w'
      → locked k wait body w ≡ waits w'
  locked_waits w' free e =
      >>=_returns (lock k) _ w tt (record w { held = k ∷ w.held }) (lock_free k w free)
      ∙ >>=_waits wait _ (record w { held = k ∷ w.held }) w' e

pub remove_first : (k : ℕ) (h : List ℕ) → remove k (k ∷ h) ≡ h
remove_first k h = rw ((==_iff k k).1 refl)
