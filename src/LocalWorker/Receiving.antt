-- ===== src/LocalWorker/Receiving.antt =====
-- The reading thread of a worker over a LocalSocket, from the answers of `recvfrom` to the queue:
-- LocalSocketWorker::read_data_from_source, LocalSocket::read, ConnectionWorker::thread_read_from_source
-- and ParserExample::put together.
use shovel_server.Base.{
  ◌≤◌, ◌≡◌, refl, sym, ◌∙◌, ◌≢◌, inl, inr, some, List, [], ◌∷◌, negsuc, if◌then◌else◌, ne→==,
  Bool-cases, length,
}
use shovel_server.SizedArray.{SizedArray, array_size}
use shovel_server.LocalSocket.{LocalSocket, Recv, received, recv_fails, is_transient_read, read}
use shovel_server.LocalSocket.Transfer.{local_read_delivers}
use shovel_server.Parser.{init}
use shovel_server.Worker.{Statistics, thread_read_from_source}
use shovel_server.Worker.Reader.{reader_delivers}
use shovel_server.Worker.Source.{SourceRound, read_rounds}
use shovel_server.Worker.Source.Heard.{
  Given, some_bytes, nothing_yet, over, Answered, IsSource, AnswersFit, Hears, hears,
}
use shovel_server.LocalWorker.{LocalWorker, read_data_from_source, read_by}

-- `recvfrom` gives no more than fits in the array: its documented behaviour.
abbrev pub Fits : Recv → Type 0
Fits (received bytes) = length bytes ≤ array_size
Fits (recv_fails e) = Unit

-- The worker has a socket with a descriptor; or one without.
abbrev pub IsOpen : LocalWorker → Type 0
IsOpen w = (s : LocalSocket) × (w.local_socket ≡ some s) × (s.fd ≢ 0)

abbrev pub IsShut : LocalWorker → Type 0
IsShut w = (s : LocalSocket) × (w.local_socket ≡ some s) × (s.fd ≡ 0)

-- What an answer of `recvfrom` comes to. An empty datagram is not told from no datagram.
abbrev pub given : Recv → Given
given (received []) = nothing_yet
given (received (b ∷ bs)) = some_bytes b bs
given (recv_fails e) = if is_transient_read e then nothing_yet else over

read_by-Answered :
    (answer : Recv) (w : LocalWorker) (buf : SizedArray) (s : LocalSocket)
    → s.fd ≢ 0
    → Fits answer
    → Answered IsOpen IsShut (given answer) (read_by (some s) answer w buf)
unfolding read_by read
read_by-Answered (received []) w buf s d h =
    let (r, c, k, _) = local_read_delivers s buf [] d h in
    rw r (refl, (_, refl, λ z. d (sym k ∙ z)))
read_by-Answered (received (b ∷ bs)) w buf s d h =
    let (r, c, k, _) = local_read_delivers s buf (b ∷ bs) d h in
    rw r (refl, c, (_, refl, λ z. d (sym k ∙ z)))
read_by-Answered (recv_fails e) w buf s d h = elim (Bool-cases (is_transient_read e)) [
  | inl t ↦ rw (ne→== s.fd 0 d, t) (refl, (_, refl, d))
  | inr t ↦ rw (ne→== s.fd 0 d, t) (refl, (_, refl, refl))
]

pub IsOpen-Answered :
    (answer : Recv) (w : LocalWorker) (buf : SizedArray)
    → IsOpen w
    → Fits answer
    → Answered IsOpen IsShut (given answer) (read_data_from_source answer w buf)
unfolding read_data_from_source
IsOpen-Answered answer w buf (s, e, d) h = rw e (read_by-Answered answer w buf s d h)

pub read_closed :
    (answer : Recv) (w : LocalWorker) (buf : SizedArray)
    → IsShut w
    → ((read_data_from_source answer w buf).result ≡ negsuc 0)
      × IsShut (read_data_from_source answer w buf).state
unfolding read_data_from_source read_by read
read_closed answer w buf (s, e, z) = rw (e, z) (refl, (_, refl, refl))

abbrev pub local_source : IsSource read_data_from_source
local_source = record {
  Good = Fits;
  gives = given;
  IsOpen = IsOpen;
  IsShut = IsShut;
  read_open = IsOpen-Answered;
  read_shut = read_closed;
}

-- The reading thread of a worker with a bound socket and a new parser, over any answers of `recvfrom`
-- that fit in the array. While it goes on, the queue has taken exactly the datagrams that the parser
-- finds in the bytes of all datagrams received, one behind the other, in order and each once: the
-- boundaries of the datagrams received do not count. Where the thread has ended or is still trying to
-- hand over, the queue has taken the first of those of what `recvfrom` gave up to there, until it failed
-- for good. The undefined behaviour of the parser is met only where those bytes come to a head with a size
-- below that of a head.
pub local_reader-Hears :
    (rounds : List (SourceRound Recv)) (w : LocalWorker) (buf : SizedArray)
    (statistics : Statistics)
    → IsOpen w
    → AnswersFit read_data_from_source local_source rounds
    → Hears read_data_from_source local_source rounds (
        thread_read_from_source
          (record { parser = some init; statistics = statistics; queued = [] })
          (read_rounds read_data_from_source w buf rounds))
local_reader-Hears rounds w buf statistics h f =
    hears read_data_from_source local_source rounds w buf _ h f
      (reader_delivers statistics (read_rounds read_data_from_source w buf rounds))
