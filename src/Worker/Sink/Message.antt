-- ===== src/Worker/Sink/Message.antt =====
-- What the calls of write_data_to_source for one message hand to the system, from what one of them
-- does.
use shovel_server.Base.{
  ℕ, ◌≤◌, ◌<◌, ◌≡◌, refl, sym, ap, ◌∙◌, subst, ◌⊎◌, inl, inr, true, false, Option, none, some, List,
  [], ◌∷◌, ◌++◌, append_assoc, append-nil, arith, ℤ, pos, negsuc, ◌==◌, length, All, length-take,
  memcpy-take, is_negative,
}
use shovel_server.SizedArray.{SizedArray, array_size, contents, contents-resize, resize}
use shovel_server.Worker.{cut, write_until_done, magnitude}
use shovel_server.Worker.Sink.{
  WriteAnswer, Side, Calls, peeked, no_calls, first_status, after_write, write_calls,
}

abbrev pub Fails : Option ℤ → Type 0
Fails none = Unit {0}
Fails (some a) = is_negative a ≡ true

-- What a call does with the bytes of the array: it hands over the message whole; or a part, answers 0
-- and leaves the array; or a part, and fails or does not return.
abbrev pub Called :
    {S X : Type 0} (Part Whole : List ℕ → List X → Type 0) → SizedArray → WriteAnswer S X → Type 0
Called Part Whole buf r =
    ((n : ℕ) × (r.result ≡ some (pos n)) × (0 < n) × Whole (contents buf) r.wire)
    ⊎ ((r.result ≡ some (pos 0)) × Part (contents buf) r.wire × (r.buf ≡ buf))
    ⊎ (Fails r.result × Part (contents buf) r.wire)

-- What the thread relies on: the items of `Part` are what calls may hand over of a message without
-- finishing it, those of `Whole` are the message, behind such parts. The law on a call holds for the
-- answers in `Good`, over an array that is not empty and holds 65535 bytes at most.
pub record IsSink {S A X : Type 0} (write : A → S → SizedArray → WriteAnswer S X) : Type 1 where
  pub Good : A → Type 0
  pub Part : List ℕ → List X → Type 0
  pub Whole : List ℕ → List X → Type 0
  pub no_part : (m : List ℕ) → Part m []
  pub part_part : (m : List ℕ) (p q : List X) → Part m p → Part m q → Part m (p ++ q)
  pub part_whole : (m : List ℕ) (p q : List X) → Part m p → Whole m q → Whole m (p ++ q)
  pub called :
      (answer : A) (s : S) (buf : SizedArray)
      → Good answer
      → 0 < length (contents buf)
      → length (contents buf) ≤ 65535
      → Called Part Whole buf (write answer s buf)

pub contents-peeked : (m : List ℕ) (buf : SizedArray) → contents (peeked m buf) ≡ cut m
unfolding peeked
contents-peeked m buf =
    let n : length (cut m) ≤ 65535 = omega (arith, length-take 65535 m) in
    ap (λ t. contents (resize array_size (record buf { elements = t }) (length (cut m))))
      (sym (memcpy-take buf.elements m (length (cut m)) 65535 n))
    ∙ contents-resize buf (cut m) n

module _ {S A X : Type 0} (write : A → S → SizedArray → WriteAnswer S X) (sink : IsSink write) where
  -- What the calls for one message do.
  abbrev pub Done : List ℕ → List X → Calls S X → Type 0
  Done m before c =
      ((n : ℕ) × (items : List X) × (write_until_done c.statuses ≡ some (pos n))
        × sink.Whole m items
        × (c.side.wire ≡ before ++ items))
      ⊎ ((items : List X) × Fails (write_until_done c.statuses)
          × sink.Part m items
          × (c.side.wire ≡ before ++ items))

  again-Done :
      (m : List ℕ) (before piece : List X) (a : ℤ) (c : Calls S X)
      → magnitude a ≡ 0
      → sink.Part m piece
      → Done m (before ++ piece) c
      → Done m before (record c { statuses = a ∷ c.statuses })
  unfolding write_until_done
  again-Done m before piece a c z h (inl (n, items, e, p, w)) = inl (
    n,
    piece ++ items,
    rw (write_until_done, z) e,
    sink.part_whole m piece items h p,
    w ∙ append_assoc before piece items,
  )
  again-Done m before piece a c z h (inr (items, f, p, w)) = inr (
    piece ++ items,
    rw (write_until_done, z) f,
    sink.part_part m piece items h p,
    w ∙ append_assoc before piece items,
  )

  failed-Done :
      (m : List ℕ) (d : Side S X) (r : WriteAnswer S X) (o : Option ℤ)
      → r.result ≡ o
      → Fails o
      → sink.Part m r.wire
      → (rest : ℤ → Calls S X)
      → Done m d.wire (elim o [
        | none ↦ no_calls (after_write d r)
        | some a ↦ elim (magnitude a == 0) [
          | true ↦ rest a
          | false ↦ record { statuses = a ∷ []; side = after_write d r }
        ]
      ])
  unfolding write_until_done
  failed-Done m d r none e f p rest = inr (r.wire, tt, p, refl)
  failed-Done m d r (some (negsuc n)) e f p rest =
      let z : (magnitude (negsuc n) == 0) ≡ false = ground arith in
      rw (z, write_until_done, z) (inr (r.wire, refl, p, refl))
  failed-Done m d r (some (pos n)) e f p rest = cc

  pub write_calls-Done :
      (calls : List A) (d : Side S X)
      → All sink.Good calls
      → 0 < length (contents d.buf)
      → length (contents d.buf) ≤ 65535
      → Done (contents d.buf) d.wire (write_calls write calls d)
  unfolding write_calls write_until_done
  write_calls-Done [] d g l k = inr ([], tt, sink.no_part (contents d.buf), sym (append-nil d.wire))
  write_calls-Done (answer ∷ rest) d (g, gs) l k =
      let r = write answer d.state d.buf in
      let c = write_calls write rest (after_write d r) in
      elim (sink.called answer d.state d.buf g l k) [
        | inl (n, e, h, w) ↦
            let z : (magnitude (pos n) == 0) ≡ false = ground arith in
            rw (write_calls, e, z, write_until_done, z) (inl (n, r.wire, refl, w, refl))
        | inr (inl (e, p, b)) ↦
            let more : Done (contents d.buf) (d.wire ++ r.wire) c =
              subst (λ t. Done (contents t) (d.wire ++ r.wire) c) b
                (write_calls-Done rest (after_write d r) gs
                  (subst (λ t. 0 < length (contents t)) (sym b) l)
                  (subst (λ t. length (contents t) ≤ 65535) (sym b) k)) in
            rw (write_calls, e) (again-Done (contents d.buf) d.wire r.wire (pos 0) c refl p more)
        | inr (inr (f, p)) ↦
            failed-Done (contents d.buf) d r r.result refl f p (λ a. first_status a c)
      ]
