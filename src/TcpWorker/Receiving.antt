-- ===== src/TcpWorker/Receiving.antt =====
-- The reading thread of a worker over a TCPSocket, from the answers of `recv` to the queue:
-- TCPSocketWorker::read_data_from_source, TCPSocket::read, ConnectionWorker::thread_read_from_source
-- and ParserExample::put together.
use shovel_server.Base.{
  ◌≤◌, ◌≡◌, refl, sym, ap, ◌∙◌, subst, inl, inr, true, false, some, List, [], ◌∷◌, if◌then◌else◌,
  Bool-cases, length, is_positive, is_negative,
}
use shovel_server.SizedArray.{SizedArray, array_size}
use shovel_server.TcpSocket.{
  TcpSocket, ok, Recv, received, recv_fails, is_transient_read, is_ok, read, minus_one,
}
use shovel_server.TcpSocket.Reading.{read_delivers}
use shovel_server.Parser.{init}
use shovel_server.Worker.{Statistics, thread_read_from_source}
use shovel_server.Worker.Reader.{reader_delivers}
use shovel_server.Worker.Source.{SourceRound, read_rounds}
use shovel_server.Worker.Source.Heard.{
  Given, some_bytes, nothing_yet, over, Answered, IsSource, AnswersFit, Hears, hears,
}
use shovel_server.TcpWorker.{TcpWorker, read_data_from_source, after_read, read_by}

-- `recv` gives no more than fits in the array: its documented behaviour.
abbrev pub Fits : Recv → Type 0
Fits (received bytes) = length bytes ≤ array_size
Fits (recv_fails e) = Unit

-- The worker has a socket that is connected; or one that no longer is.
abbrev pub IsOpen : TcpWorker → Type 0
IsOpen w =
    (s : TcpSocket) × (w.net_socket ≡ some s) × (s.status ≡ ok) × (is_positive s.descr ≡ true)

abbrev pub IsShut : TcpWorker → Type 0
IsShut w = (s : TcpSocket) × (w.net_socket ≡ some s) × (is_ok s.status ≡ false)

-- What an answer of `recv` comes to.
abbrev pub given : Recv → Given
given (received []) = over
given (received (b ∷ bs)) = some_bytes b bs
given (recv_fails e) = if is_transient_read e then nothing_yet else over

read_open :
    (answer : Recv) (w : TcpWorker) (buf : SizedArray) (s : TcpSocket)
    → w.net_socket ≡ some s
    → read_data_from_source answer w buf ≡ after_read w (read answer s buf)
unfolding read_data_from_source read_by
read_open answer w buf s e = rw e refl

socket_read-Answered :
    (answer : Recv) (w : TcpWorker) (buf : SizedArray) (s : TcpSocket)
    → s.status ≡ ok
    → is_positive s.descr ≡ true
    → Fits answer
    → Answered IsOpen IsShut (given answer) (after_read w (read answer s buf))
unfolding read after_read
socket_read-Answered (received []) w buf s e d h = rw (e, d) (refl, (_, refl, refl))
socket_read-Answered (received (b ∷ bs)) w buf s e d h =
    let (r, c, k, o, _) = read_delivers s buf b bs e d h in
    let n : is_negative (read (received (b ∷ bs)) s buf).result ≡ false = rw r refl in
    rw n (r, c, (_, refl, o, ap is_positive k ∙ d))
socket_read-Answered (recv_fails x) w buf s e d h = elim (Bool-cases (is_transient_read x)) [
  | inl t ↦ rw (e, d, t) (refl, (_, refl, refl, d))
  | inr t ↦ rw (e, d, t) (refl, (_, refl, refl))
]

pub IsOpen-Answered :
    (answer : Recv) (w : TcpWorker) (buf : SizedArray)
    → IsOpen w
    → Fits answer
    → Answered IsOpen IsShut (given answer) (read_data_from_source answer w buf)
IsOpen-Answered answer w buf (s, e, o, d) h =
    subst (Answered IsOpen IsShut (given answer)) (sym (read_open answer w buf s e))
      (socket_read-Answered answer w buf s o d h)

pub read_closed :
    (answer : Recv) (w : TcpWorker) (buf : SizedArray)
    → IsShut w
    → ((read_data_from_source answer w buf).result ≡ minus_one)
      × IsShut (read_data_from_source answer w buf).state
unfolding read after_read
read_closed answer w buf (s, e, o) =
    subst (λ r. (r.result ≡ minus_one) × IsShut r.state) (sym (read_open answer w buf s e))
      (rw o (refl, (_, refl, o)))

abbrev pub tcp_source : IsSource read_data_from_source
tcp_source = record {
  Good = Fits;
  gives = given;
  IsOpen = IsOpen;
  IsShut = IsShut;
  read_open = IsOpen-Answered;
  read_shut = read_closed;
}

-- The reading thread of a worker with a connected socket and a new parser, over any answers of `recv`
-- that fit in the array. While it goes on, the queue has taken exactly the datagrams of the bytes that
-- `recv` has given, in order and each once, however `recv` cuts them up, and whichever of its failures
-- are passing ones. Where the thread has ended or is still trying to hand over, the queue has taken the
-- first of the datagrams of what `recv` gave up to there, until the connection ended. The undefined
-- behaviour of the parser is met only where those bytes come to a head with a size below that of a head.
pub tcp_reader-Hears :
    (rounds : List (SourceRound Recv)) (w : TcpWorker) (buf : SizedArray) (statistics : Statistics)
    → IsOpen w
    → AnswersFit read_data_from_source tcp_source rounds
    → Hears read_data_from_source tcp_source rounds (
        thread_read_from_source
          (record { parser = some init; statistics = statistics; queued = [] })
          (read_rounds read_data_from_source w buf rounds))
tcp_reader-Hears rounds w buf statistics h f =
    hears read_data_from_source tcp_source rounds w buf _ h f
      (reader_delivers statistics (read_rounds read_data_from_source w buf rounds))
