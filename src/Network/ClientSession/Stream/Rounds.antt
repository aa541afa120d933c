-- ===== src/Network/ClientSession/Stream/Rounds.antt =====
-- network/ClientSession.cpp: the rounds of a pump keep the stream of octets.
use aeb_node.Prelude.{
  zero, suc, ◌≡◌, ◌≢◌, refl, sym, ap, ◌∙◌, subst, ◌⊎◌, inl, inr, Bool, true, false, List, [], ◌∷◌,
  ◌++◌, Option, none, some, if◌then◌else◌, not,
}
use aeb_node.Network.ClientSession.{
  SessionResult, progressed, blocked, failed, eintr, eagain, other, IoResult, count, refused, Pump,
  refill, advance, again, returns, answer, pump_loop, pump, valid,
}
use aeb_node.Network.ClientSession.Stream.{unsent, stream, Refilled, Refill-cases, stream-advance}

-- What a pump leaves behind, by its result.
pub record Pumped (p : Pump) (r : SessionResult) (p' : Pump) : Type 0 where
  pub same_stream : stream p' ≡ stream p
  pub done : r ≡ progressed → unsent p' ≡ []

abbrev Returned : Pump → Option (SessionResult × Pump) → Type 0
Returned p m = (r : SessionResult) (p' : Pump) → m ≡ some (r, p') → Pumped p r p'

module _ (p : Pump) where
  returned : (s : SessionResult) (q : Pump) → Pumped p s q → Returned p (some (s, q))
  returned s q h r p' e =
      let same : p' ≡ q = cc in
      record {
        same_stream = ap stream same ∙ h.same_stream;
        done = λ z. ap unsent same ∙ h.done (cc);
      }

  -- What the loop does in its next round.
  pub pump_loop-done :
      (rs : List IoResult) → refill p ≡ none → pump_loop rs p ≡ some (progressed, p)
  unfolding pump_loop
  pump_loop-done [] e = rw (e, pump_loop)
  pump_loop-done (r ∷ rs) e = rw (e, pump_loop)

  pub pump_loop-waits : {p' : Pump} → refill p ≡ some p' → pump_loop [] p ≡ none
  unfolding pump_loop
  pump_loop-waits e = rw (e, pump_loop)

  pub pump_loop-again :
      (r : IoResult) (rs : List IoResult) {p' p'' : Pump}
      → refill p ≡ some p'
      → answer r p' ≡ again p''
      → pump_loop (r ∷ rs) p ≡ pump_loop rs p''
  unfolding pump_loop
  pump_loop-again r rs e q = rw (e, pump_loop) (rw (q, pump_loop))

  pub pump_loop-returns :
      (r : IoResult) (rs : List IoResult) {p' p'' : Pump} {s : SessionResult}
      → refill p ≡ some p'
      → answer r p' ≡ returns s p''
      → pump_loop (r ∷ rs) p ≡ some (s, p'')
  unfolding pump_loop
  pump_loop-returns r rs e q = rw (e, pump_loop) (rw (q, pump_loop))

stream-Refilled : (p p' : Pump) → Refilled p p' → stream p' ≡ stream p
stream-Refilled p p' h =
    ap (λ xs. xs ++ unsent p') h.same_sent ∙ ap (λ xs. p.sent ++ xs) h.same_unsent

-- An answer of the kernel lets the loop go on with the same stream, or ends it where it stands.
abbrev Answered : IoResult → Pump → Type 0
Answered r p =
    ((q : Pump) × (answer r p ≡ again q) × (stream q ≡ stream p))
    ⊎ ((s : SessionResult) × (answer r p ≡ returns s p) × (s ≢ progressed))

answer_cases : (r : IoResult) (p : Pump) → Answered r p
unfolding answer
answer_cases (count zero) p = inr (failed, refl, λ e. cc)
answer_cases (count (suc n)) p = inl (advance p (suc n), refl, stream-advance p (suc n))
answer_cases (refused eintr) p = inl (p, refl, refl)
answer_cases (refused eagain) p = inr (blocked, refl, λ e. cc)
answer_cases (refused (other e)) p = inr (failed, refl, λ e. cc)

via :
    (p q : Pump) (m : Option (SessionResult × Pump))
    → stream q ≡ stream p
    → Returned q m
    → Returned p m
via p q m e h r p' k = let g = h r p' k in record { same_stream = g.same_stream ∙ e; done = g.done }

pump_loop-step :
    (r : IoResult) (rs : List IoResult) (p p' : Pump)
    → refill p ≡ some p'
    → Refilled p p'
    → Answered r p'
    → ((q : Pump) → Returned q (pump_loop rs q))
    → Returned p (pump_loop (r ∷ rs) p)
pump_loop-step r rs p p' e h (inl (q, a, same)) later =
    subst (Returned p) (sym (pump_loop-again p r rs e a))
      (via p q _ (same ∙ stream-Refilled p p' h) (later q))
pump_loop-step r rs p p' e h (inr (s, a, ne)) later =
    subst (Returned p) (sym (pump_loop-returns p r rs e a))
      (returned p s p' (record { same_stream = stream-Refilled p p' h; done = λ z. absurd (ne z) }))

pump_loop-Pumped : (rs : List IoResult) (p : Pump) → Returned p (pump_loop rs p)
pump_loop-Pumped [] p = elim (Refill-cases p) [
  | inl (e, none_left) ↦
      subst (Returned p) (sym (pump_loop-done p [] e))
        (returned p progressed p (record { same_stream = refl; done = λ z. none_left }))
  | inr (p', e, h) ↦ λ r q k. absurd (never (sym (pump_loop-waits p e) ∙ k))
]
  where
    never : {x : SessionResult × Pump} → none ≡ some x → ⊥
    never k = cc
pump_loop-Pumped (r ∷ rs) p = elim (Refill-cases p) [
  | inl (e, none_left) ↦
      subst (Returned p) (sym (pump_loop-done p (r ∷ rs) e))
        (returned p progressed p (record { same_stream = refl; done = λ z. none_left }))
  | inr (p', e, h) ↦ pump_loop-step r rs p p' e h (answer_cases r p') (pump_loop-Pumped rs)
]

-- However the kernel splits or refuses the writes: what the socket has accepted, what is left of the
-- frame in transmission and the encodings of the queued frames are, one after the other, the same octets
-- before and after a pump. After `progressed` there is nothing left to send.
pub pump-stream :
    (rs : List IoResult) (p p' : Pump) (r : SessionResult)
    → pump rs p ≡ some (r, p')
    → (stream p' ≡ stream p) × (r ≡ progressed → unsent p' ≡ [])
unfolding pump
pump-stream rs p p' r e = let g = either (not (valid p.session)) r p' e in (g.same_stream, g.done)
  where
    either : (b : Bool) → Returned p (if b then some (failed, p) else pump_loop rs p)
    either true = returned p failed p (record { same_stream = refl; done = λ z. absurd (cc) })
    either false = pump_loop-Pumped rs p
