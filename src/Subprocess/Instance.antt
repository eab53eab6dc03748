-- ===== src/Subprocess/Instance.antt =====
-- The programs src/subprocesses/instance_subprocess_1 and instance_subprocess_2: `main`, and the class
-- that it makes, from its arguments to the loop. The two differ in names and in what they print. A
-- program is run with the command line, what the system answers when the socket is opened, and the rounds
-- of the loop. The reading thread, which the constructor starts before it sets the parser, is left out.
use shovel_server.Base.{
  ℕ, ◌≡◌, refl, ◌⊎◌, inl, inr, Bool, true, false, none, some, List, [], ◌∷◌, arith, ltb, leb,
  if◌then◌else◌, Bool-cases, length, get_elem?, All,
}
use shovel_server.SizedArray.{SizedArray}
use shovel_server.LocalSocket.{Opening, no_socket, no_bind, bound}
use shovel_server.Ring
use shovel_server.Ring.Refine.{init-Represents}
use shovel_server.Subprocess.{Round, Looped, new_ring, queue_count_bags, loop, init}
use shovel_server.Subprocess.Plan.{plan_loop}
use shovel_server.Subprocess.Looping.{RoundFits, LoopFollows, loop-LoopFollows}

abbrev pub Text : Type 0
Text = List ℕ

-- `m_path_for_reading` and `m_path_for_writing` of the socket.
pub record Paths : Type 0 where
  pub for_reading : Text
  pub for_writing : Text

-- What becomes of the process: exit(code); a std::string made of a null pointer, or a path copied past
-- the end of `sun_path`, both undefined; or the loop, as it then stands, with its socket.
pub data Process : Type 0 where
  quits : ℕ → Process
  null_string overflows : Process
  loops : Paths → Looped → Process

-- What does not change: the size of `sun_path`, the answers of the system, the array of the loop, and
-- what getppid and the other threads do.
pub record Setting : Type 0 where
  pub sun_path_size : ℕ
  pub opening : Opening
  pub arr : SizedArray
  pub rounds : List Round

-- strcpy(sock_addr.sun_path, m_path_for_reading.c_str()), which copies the final 0 too.
abbrev pub copies_past : ℕ → Opening → Text → Bool
copies_past size no_socket path = false
copies_past size (no_bind d) path = leb size (length path)
copies_past size (bound d) path = leb size (length path)

-- LocalSocket::LocalSocket(path_input, path_output), and what comes after it.
abbrev pub open_local : Setting → Text → Text → (Paths → Process) → Process
open_local x path_input path_output next =
    if copies_past x.sun_path_size x.opening path_input
    then overflows
    else next (record { for_reading = path_input; for_writing = path_output })

-- AbstractSubprocess::AbstractSubprocess, start and loop.
unfoldable pub abstract_subprocess : Setting → Text → Text → Process
unfolding init
abstract_subprocess x path_input path_output =
    open_local x path_output path_input (λ paths. loops paths (loop x.rounds (init x.arr)))

-- InstanceSubprocess_1::InstanceSubprocess_1
unfoldable pub instance_subprocess_1 : Setting → Text → Text → Process
unfolding abstract_subprocess
instance_subprocess_1 x path_input path_output = abstract_subprocess x path_input path_output

-- InstanceSubprocess_2::InstanceSubprocess_2
unfoldable pub instance_subprocess_2 : Setting → Text → Text → Process
unfolding abstract_subprocess
instance_subprocess_2 x path_input path_output = abstract_subprocess x path_input path_output

-- std::string(argv[i]), with the null pointer behind the arguments.
abbrev pub text_of : List Text → ℕ → (Text → Process) → Process
text_of argv i next = elim (get_elem? argv i) [ none ↦ null_string | some t ↦ next t ]

-- The body of both: the second argument is the first of the constructor.
abbrev main_of : (Text → Text → Process) → List Text → Process
main_of constructor argv =
    if ltb (length argv) 2
    then quits 1
    else text_of argv 2 (λ path_input. text_of argv 1 (constructor path_input))

-- main of instance_subprocess_1
unfoldable pub main_1 : Setting → List Text → Process
unfolding instance_subprocess_1
main_1 x argv = main_of (instance_subprocess_1 x) argv

-- main of instance_subprocess_2
unfoldable pub main_2 : Setting → List Text → Process
unfolding instance_subprocess_2
main_2 x argv = main_of (instance_subprocess_2 x) argv

-- What a program comes to with the arguments behind its name.
abbrev pub Becomes : Setting → List Text → Process → Type 0
Becomes x [] o = o ≡ quits 1
Becomes x (_ ∷ []) o = o ≡ quits 1
Becomes x (_ ∷ _ ∷ []) o = o ≡ null_string
Becomes x (_ ∷ a ∷ b ∷ _) o =
    ((copies_past x.sun_path_size x.opening a ≡ true) × (o ≡ overflows))
    ⊎ ((copies_past x.sun_path_size x.opening a ≡ false)
        × (l : Looped) × (o ≡ loops (record { for_reading = a; for_writing = b }) l)
        × LoopFollows queue_count_bags (init x.arr) (plan_loop queue_count_bags x.rounds []) l)

new_loop-LoopFollows :
    (arr : SizedArray) (rounds : List Round)
    → All RoundFits rounds
    → LoopFollows queue_count_bags
        (init arr)
        (plan_loop queue_count_bags rounds [])
        (loop rounds (init arr))
unfolding init new_ring Ring.init
new_loop-LoopFollows arr rounds f =
    loop-LoopFollows rounds queue_count_bags [] (init arr)
      (init-Represents queue_count_bags 65535 (omega arith)) refl f

two_paths :
    (x : Setting) (name a b : Text) (argv : List Text)
    → All RoundFits x.rounds
    → Becomes x (name ∷ a ∷ b ∷ argv) (main_of (abstract_subprocess x) (name ∷ a ∷ b ∷ argv))
unfolding abstract_subprocess
two_paths x name a b argv f = elim (Bool-cases (copies_past x.sun_path_size x.opening a)) [
  | inl h ↦ inl (h, ground (arith, h))
  | inr h ↦
      inr (h, loop x.rounds (init x.arr), ground (arith, h), new_loop-LoopFollows x.arr x.rounds f)
]

main_of-Becomes :
    (x : Setting) (argv : List Text)
    → All RoundFits x.rounds
    → Becomes x argv (main_of (abstract_subprocess x) argv)
main_of-Becomes x [] f = refl
main_of-Becomes x (name ∷ []) f = refl
main_of-Becomes x (name ∷ a ∷ []) f = refl
main_of-Becomes x (name ∷ a ∷ b ∷ argv) f = two_paths x name a b argv f

-- Both programs, on any command line. Without an argument they quit with 1. With one they make a string
-- of the null pointer behind it. With two or more they read from the first path and write to the second,
-- and the loop that runs is as planned over a plain queue of 128 messages that starts empty; but where
-- the socket has been opened, and the first path with its final 0 is longer than `sun_path`, the copy
-- of it runs past the end.
pub mains-Becomes :
    (x : Setting) (argv : List Text)
    → All RoundFits x.rounds
    → Becomes x argv (main_1 x argv) × Becomes x argv (main_2 x argv)
unfolding main_1 main_2
mains-Becomes x argv f = (main_of-Becomes x argv f, main_of-Becomes x argv f)
