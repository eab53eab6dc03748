-- ===== src/Worker/Delivery.antt =====
-- src/connections/workers/ConnectionWorker.cpp, thread_read_from_source: the loops that hand the
-- datagrams of one read to the queue.
use shovel_server.Base.{
  ℕ, ◌≡◌, refl, sym, ◌∙◌, subst, ◌⊎◌, inl, inr, List, [], ◌∷◌, ◌++◌, append_assoc, append-nil, ◌==◌,
  Bool-cases,
}
use shovel_server.Worker.{
  Attempt, Handed, handed, breaks_off, trying, hand_over, Delivered, all_handed, broken_off,
  still_trying, deliver,
}

-- What the queue has got of one datagram.
abbrev HandedOver : List ℕ → List (List ℕ) → Handed → Type 0
HandedOver m q (handed q' rest) = q' ≡ q ++ m ∷ []
HandedOver m q (breaks_off q') = (q' ≡ q) ⊎ (q' ≡ q ++ m ∷ [])
HandedOver m q (trying q') = q' ≡ q

hand_over-HandedOver :
    (attempts : List Attempt) (m : List ℕ) (q : List (List ℕ))
    → HandedOver m q (hand_over attempts m q)
unfolding hand_over
hand_over-HandedOver [] m q = refl
hand_over-HandedOver (a ∷ rest) m q =
    let t : (h : Handed)
        → hand_over (a ∷ rest) m q ≡ h
        → HandedOver m q h
        → HandedOver m q (hand_over (a ∷ rest) m q) =
      λ h e k. subst (HandedOver m q) (sym e) k in
    elim (Bool-cases (a.put_status == 0)) [
      | inl z ↦ elim (Bool-cases a.goes_on) [
        | inl g ↦ t (hand_over rest m q) (rw (hand_over, z, g) refl) (hand_over-HandedOver rest m q)
        | inr g ↦ t (breaks_off q) (rw (hand_over, g, g, z) refl) (inl refl)
      ]
      | inr z ↦ elim (Bool-cases a.goes_on) [
        | inl g ↦ elim (Bool-cases a.goes_on_behind) [
          | inl b ↦ t (handed (q ++ m ∷ []) rest) (rw (hand_over, g, z, g, b, z) refl) refl
          | inr b ↦ t (breaks_off (q ++ m ∷ [])) (rw (hand_over, g, z, g, b, z) refl) (inr refl)
        ]
        | inr g ↦ t (breaks_off (q ++ m ∷ [])) (rw (hand_over, g, g, z) refl) (inr refl)
      ]
    ]

-- What the queue has got of all of them.
abbrev pub Kept : List (List ℕ) → List (List ℕ) → Delivered → Type 0
Kept q ms (all_handed q') = q' ≡ q ++ ms
Kept q ms (broken_off q') = (lost : List (List ℕ)) × (q ++ ms ≡ q' ++ lost)
Kept q ms (still_trying q') = (lost : List (List ℕ)) × (q ++ ms ≡ q' ++ lost)

Kept-whole :
    (q ms q₂ ms₂ : List (List ℕ)) (d : Delivered)
    → q ++ ms ≡ q₂ ++ ms₂
    → Kept q ms d
    → Kept q₂ ms₂ d
Kept-whole q ms q₂ ms₂ (all_handed q') s k = k ∙ s
Kept-whole q ms q₂ ms₂ (broken_off q') s (lost, k) = (lost, sym s ∙ k)
Kept-whole q ms q₂ ms₂ (still_trying q') s (lost, k) = (lost, sym s ∙ k)

deliver_cons-Kept :
    (attempts : List Attempt) (m : List ℕ) (ms q : List (List ℕ)) (h : Handed)
    → hand_over attempts m q ≡ h
    → HandedOver m q h
    → ((rest : List Attempt) (q' : List (List ℕ)) → Kept q' ms (deliver rest ms q'))
    → Kept q (m ∷ ms) (deliver attempts (m ∷ ms) q)
unfolding deliver
deliver_cons-Kept attempts m ms q (handed q' rest) e k f =
    let e' : deliver attempts (m ∷ ms) q ≡ deliver rest ms q' = rw (deliver, e) refl in
    let s : q' ++ ms ≡ q ++ m ∷ ms = rw k (append_assoc q (m ∷ []) ms) in
    subst (Kept q (m ∷ ms)) (sym e')
      (Kept-whole q' ms q (m ∷ ms) (deliver rest ms q') s (f rest q'))
deliver_cons-Kept attempts m ms q (breaks_off q') e (inl k) f =
    let e' : deliver attempts (m ∷ ms) q ≡ broken_off q' = rw (deliver, e) refl in
    subst (Kept q (m ∷ ms)) (sym e') (m ∷ ms, rw k refl)
deliver_cons-Kept attempts m ms q (breaks_off q') e (inr k) f =
    let e' : deliver attempts (m ∷ ms) q ≡ broken_off q' = rw (deliver, e) refl in
    subst (Kept q (m ∷ ms)) (sym e') (ms, rw k (sym (append_assoc q (m ∷ []) ms)))
deliver_cons-Kept attempts m ms q (trying q') e k f =
    let e' : deliver attempts (m ∷ ms) q ≡ still_trying q' = rw (deliver, e) refl in
    subst (Kept q (m ∷ ms)) (sym e') (m ∷ ms, rw k refl)

pub deliver-Kept :
    (ms : List (List ℕ)) (attempts : List Attempt) (q : List (List ℕ))
    → Kept q ms (deliver attempts ms q)
unfolding deliver
deliver-Kept [] attempts q = sym (append-nil q)
deliver-Kept (m ∷ ms) attempts q =
    deliver_cons-Kept attempts m ms q (hand_over attempts m q) refl
      (hand_over-HandedOver attempts m q) (deliver-Kept ms)
