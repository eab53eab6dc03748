-- ===== src/Worker/Source/Heard.antt =====
-- What the queue is given of the bytes that the system gives, from what one call of
-- read_data_from_source does with an answer.
use shovel_server.Base.{
  ℕ, suc, ◌≡◌, refl, ap, ◌∙◌, subst, false, List, [], ◌∷◌, ◌++◌, arith, pos, negsuc, ◌==◌, length,
  All, All-split,
}
use shovel_server.SizedArray.{SizedArray, contents}
use shovel_server.Parser.Spec.{Parses, Broken}
use shovel_server.Worker.{ReadRound, Reading, ReadState, goes_on, ended, hands_over, undefined}
use shovel_server.Worker.Reader
use shovel_server.Worker.Reader.{Follows, Outcome}
use shovel_server.Worker.Source.{ReadAnswer, SourceRound, met, read_rounds}

-- What an answer of the system comes to: bytes, or nothing for the time being, or the source is over.
pub data Given : Type 0 where
  some_bytes : ℕ → List ℕ → Given
  nothing_yet over : Given

abbrev pub heard_from : Given → List ℕ → List ℕ
heard_from (some_bytes b bs) later = (b ∷ bs) ++ later
heard_from nothing_yet later = later
heard_from over later = []

-- What a read does.
abbrev pub Answered : {S : Type 0} (IsOpen IsShut : S → Type 0) → Given → ReadAnswer S → Type 0
Answered IsOpen IsShut (some_bytes b bs) r =
    (r.result ≡ pos (length (b ∷ bs))) × (contents r.buf ≡ b ∷ bs) × IsOpen r.state
Answered IsOpen IsShut nothing_yet r = (r.result ≡ pos 0) × IsOpen r.state
Answered IsOpen IsShut over r = (r.result ≡ negsuc 0) × IsShut r.state

-- What the thread relies on: what answers come to, for those in `Good`, over a source that is open; and
-- that a source that is over stays so.
pub record IsSource {S A : Type 0} (read : A → S → SizedArray → ReadAnswer S) : Type 1 where
  pub Good : A → Type 0
  pub gives : A → Given
  pub IsOpen : S → Type 0
  pub IsShut : S → Type 0
  pub read_open :
      (answer : A) (s : S) (buf : SizedArray)
      → IsOpen s
      → Good answer
      → Answered IsOpen IsShut (gives answer) (read answer s buf)
  pub read_shut :
      (answer : A) (s : S) (buf : SizedArray)
      → IsShut s
      → ((read answer s buf).result ≡ negsuc 0) × IsShut (read answer s buf).state

module _ {S A : Type 0} (read : A → S → SizedArray → ReadAnswer S) (source : IsSource read) where
  -- The bytes that the system gives, up to where the source is over.
  abbrev pub heard : List (SourceRound A) → List ℕ
  heard [] = []
  heard (x ∷ rest) = heard_from (source.gives x.answer) (heard rest)

  abbrev pub AnswersFit : List (SourceRound A) → Type 0
  AnswersFit rounds = All (λ x. source.Good x.answer) rounds

  received-shut :
      (rounds : List (SourceRound A)) (w : S) (buf : SizedArray)
      → source.IsShut w
      → Reader.received (read_rounds read w buf rounds) ≡ []
  unfolding read_rounds met
  received-shut [] w buf h = refl
  received-shut (x ∷ rest) w buf h =
      let r = read x.answer w buf in
      let (m, h') = source.read_shut x.answer w buf h in rw m (received-shut rest r.state r.buf h')

  heard_round :
      (given : Given) (later later' : List ℕ) (x : SourceRound A) (r : ReadAnswer S)
      → Answered source.IsOpen source.IsShut given r
      → (source.IsOpen r.state → later ≡ later')
      → (source.IsShut r.state → later ≡ [])
      → Reader.received_by (met x r) ++ later ≡ heard_from given later'
  unfolding met
  heard_round (some_bytes b bs) later later' x r (m, c, h) f g =
      let z : (suc (length bs) == 0) ≡ false = ground arith in
      rw (m, c, z) (ap (λ t. (b ∷ bs) ++ t) (f h))
  heard_round nothing_yet later later' x r (m, h) f g = rw m (f h)
  heard_round over later later' x r (m, h) f g = rw m (g h)

  -- What the thread reads is what the system gives.
  pub received-heard :
      (rounds : List (SourceRound A)) (w : S) (buf : SizedArray)
      → source.IsOpen w
      → AnswersFit rounds
      → Reader.received (read_rounds read w buf rounds) ≡ heard rounds
  unfolding read_rounds
  received-heard [] w buf h f = refl
  received-heard (x ∷ rest) w buf h (f, fs) =
      let r = read x.answer w buf in
      heard_round (source.gives x.answer) (Reader.received (read_rounds read r.state r.buf rest))
        (heard rest) x r (source.read_open x.answer w buf h f)
        (λ o. received-heard rest r.state r.buf o fs) (λ o. received-shut rest r.state r.buf o)

  -- Where the rounds met are cut, so are the rounds.
  read_rounds_split :
      (rounds : List (SourceRound A)) (w : S) (buf : SizedArray) (seen unseen : List ReadRound)
      → read_rounds read w buf rounds ≡ seen ++ unseen
      → (early : List (SourceRound A)) × (late : List (SourceRound A)) × (rounds ≡ early ++ late)
        × (seen ≡ read_rounds read w buf early)
  unfolding read_rounds
  read_rounds_split rounds w buf [] unseen e = ([], rounds, refl, refl)
  read_rounds_split [] w buf (y ∷ seen) unseen e = let e' : [] ≡ y ∷ (seen ++ unseen) = e in cc
  read_rounds_split (x ∷ rest) w buf (y ∷ seen) unseen e =
      let r = read x.answer w buf in
      let e' : met x r ∷ read_rounds read r.state r.buf rest ≡ y ∷ (seen ++ unseen) = e in
      let (early, late, s, t) = read_rounds_split rest r.state r.buf seen unseen cc in
      let first : y ≡ met x r = cc in (x ∷ early, late, ap (λ k. x ∷ k) s, rw (first, t) refl)

  abbrev pub Stops : List (SourceRound A) → Reading → Type 0
  Stops rounds r =
      (early : List (SourceRound A)) × (late : List (SourceRound A)) × (lost : List (List ℕ))
      × (rest : List ℕ) × (rounds ≡ early ++ late)
      × Parses (heard early) (r.queued ++ lost) rest

  -- As `Worker.Reader.Outcome`, in terms of what the system has given.
  abbrev pub Hears : List (SourceRound A) → ReadState → Type 0
  Hears rounds (goes_on r) = Follows (heard rounds) r
  Hears rounds (ended r) = Stops rounds r
  Hears rounds (hands_over r) = Stops rounds r
  Hears rounds undefined =
      (early : List (SourceRound A)) × (late : List (SourceRound A)) × (rounds ≡ early ++ late)
      × Broken (heard early)

  seen_is :
      (rounds early late : List (SourceRound A)) (w : S) (buf : SizedArray) (seen : List ReadRound)
      → source.IsOpen w
      → AnswersFit rounds
      → rounds ≡ early ++ late
      → seen ≡ read_rounds read w buf early
      → Reader.received seen ≡ heard early
  seen_is rounds early late w buf seen h f s t =
      let (f', _) = All-split (λ x. source.Good x.answer) early late (subst AnswersFit s f) in
      ap Reader.received t ∙ received-heard early w buf h f'

  Breaks-Stops :
      (rounds : List (SourceRound A)) (w : S) (buf : SizedArray) (r : Reading)
      → source.IsOpen w
      → AnswersFit rounds
      → Reader.Breaks [] (read_rounds read w buf rounds) r
      → Stops rounds r
  Breaks-Stops rounds w buf r h f (seen, unseen, lost, rest, e, d) =
      let (early, late, s, t) = read_rounds_split rounds w buf seen unseen e in
      (
        early,
        late,
        lost,
        rest,
        s,
        subst (λ b. Parses b (r.queued ++ lost) rest) (seen_is rounds early late w buf seen h f s t)
            d,
      )

  pub hears :
      (rounds : List (SourceRound A)) (w : S) (buf : SizedArray) (st : ReadState)
      → source.IsOpen w
      → AnswersFit rounds
      → Outcome [] (read_rounds read w buf rounds) st
      → Hears rounds st
  hears rounds w buf (goes_on r) h f o =
      subst (λ t. Follows t r) (received-heard rounds w buf h f) o
  hears rounds w buf (ended r) h f o = Breaks-Stops rounds w buf r h f o
  hears rounds w buf (hands_over r) h f o = Breaks-Stops rounds w buf r h f o
  hears rounds w buf undefined h f (seen, unseen, e, b) =
      let (early, late, s, t) = read_rounds_split rounds w buf seen unseen e in
      (early, late, s, subst Broken (seen_is rounds early late w buf seen h f s t) b)
