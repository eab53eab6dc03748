-- ===== src/Worker/Source/Arriving.antt =====
-- What a peer sends with ParserExample::prepare_data_for_sending arrives in the queue.
use shovel_server.Base.{
  ℕ, ◌≡◌, refl, sym, ap, ◌∙◌, subst, true, false, some, List, [], ◌∷◌, map, arith, length, All,
  is_negative,
}
use shovel_server.SizedArray.{SizedArray}
use shovel_server.Parser.{init, prepare_data_for_sending}
use shovel_server.Parser.Print
use shovel_server.Parser.Print.{concat, Parses-concat, All-prepared}
use shovel_server.Parser.Spec.{Parses, Broken, short}
use shovel_server.Parser.Refine.{init-AtRest}
use shovel_server.Worker.{Reading, Statistics, goes_on, thread_read_from_source}
use shovel_server.Worker.Progress.{Accepts, IsSmooth, smooth_thread, Parses→¬Broken, Parses-unique}
use shovel_server.Worker.Source.{ReadAnswer, SourceRound, met, read_rounds}
use shovel_server.Worker.Source.Heard.{
  Given, some_bytes, nothing_yet, over, Answered, IsSource, heard, AnswersFit, received-heard,
}

-- The source is not over.
abbrev pub Lasts : Given → Type 0
Lasts (some_bytes b bs) = Unit {0}
Lasts nothing_yet = Unit
Lasts over = ⊥

module _ {S A : Type 0} (read : A → S → SizedArray → ReadAnswer S) (source : IsSource read) where
  -- A round in which nothing goes wrong, and the queue takes `n` messages.
  abbrev pub IsCalm : ℕ → SourceRound A → Type 0
  IsCalm n x =
      (x.goes_on ≡ true)
      × (x.goes_on_after ≡ true)
      × source.Good x.answer
      × Lasts (source.gives x.answer)
      × Accepts n x.attempts

  lasting_read :
      (given : Given) (r : ReadAnswer S)
      → Lasts given
      → Answered source.IsOpen source.IsShut given r
      → (is_negative r.result ≡ false) × source.IsOpen r.state
  lasting_read (some_bytes b bs) r l (e, c, h) = (rw e refl, h)
  lasting_read nothing_yet r l (e, h) = (rw e refl, h)
  lasting_read over r l a = absurd l

  calm-IsSmooth :
      (rounds : List (SourceRound A)) (n : ℕ) (s : S) (buf : SizedArray)
      → source.IsOpen s
      → All (IsCalm n) rounds
      → All (IsSmooth n) (read_rounds read s buf rounds)
  unfolding read_rounds met
  calm-IsSmooth [] n s buf h c = tt
  calm-IsSmooth (x ∷ rest) n s buf h ((g, a, f, l, k), c) =
      let r = read x.answer s buf in
      let (m, h') =
        lasting_read (source.gives x.answer) r l (source.read_open x.answer s buf h f) in
      ((g, a, m, k), calm-IsSmooth rest n r.state r.buf h' c)

  calm-AnswersFit :
      (rounds : List (SourceRound A)) (n : ℕ)
      → All (IsCalm n) rounds
      → AnswersFit read source rounds
  calm-AnswersFit [] n c = tt
  calm-AnswersFit (x ∷ rest) n ((g, a, f, l, k), c) = (f, calm-AnswersFit rest n c)

  -- The thread goes on, and the queue has taken just the datagrams of the payloads.
  pub payloads_arrive :
      (payloads : List (List ℕ)) (rounds : List (SourceRound A)) (s : S) (buf : SizedArray)
      (statistics : Statistics)
      → All Print.Fits payloads
      → source.IsOpen s
      → heard read source rounds ≡ concat (map prepare_data_for_sending payloads)
      → All (IsCalm (length (heard read source rounds))) rounds
      → (r : Reading) × (thread_read_from_source
            (record { parser = some init; statistics = statistics; queued = [] })
            (read_rounds read s buf rounds)
          ≡ goes_on r)
        × (r.queued ≡ map prepare_data_for_sending payloads)
  unfolding init
  payloads_arrive payloads rounds s buf statistics fits h e c =
      let new : Reading = record { parser = some init; statistics = statistics; queued = [] } in
      let total = heard read source rounds in
      let whole : Parses (concat (map prepare_data_for_sending payloads))
          (map prepare_data_for_sending payloads) [] =
        Parses-concat _ (All-prepared payloads fits) in
      let b = received-heard read source rounds s buf h (calm-AnswersFit rounds (length total) c) in
      let (r, e', (p, _, _, d)) =
        smooth_thread (read_rounds read s buf rounds) (length total) new []
          (init, refl, init-AtRest, short [] (omega arith))
          (calm-IsSmooth rounds (length total) s buf h c) (omega (arith, ap length b))
          (subst (λ t. ¬ Broken t) (sym (b ∙ e)) (Parses→¬Broken whole)) in
      (r, e', Parses-unique (subst (λ t. Parses t r.queued p.parsing_buffer) (b ∙ e) d) whole)
