-- ===== src/Network/ClientSession/Progress.antt =====
-- network/ClientSession.cpp: how a pump ends.
use aeb_node.Prelude.{
  ℕ, zero, suc, ◌<◌, ◌≡◌, refl, ap, ◌∙◌, inl, inr, Bool, true, false, List, [], ◌∷◌, some, length,
  All, if-eq_of_false, length-append, length-drop, if◌then◌else◌, arith, not,
}
use Prim.{Unit}
use aeb_node.Protocol.Wire.Encoded.{encodings}
use aeb_node.Network.ClientSession.{
  SessionResult, progressed, failed, eintr, eagain, other, IoResult, count, refused, Pump, refill,
  advance, again, answer, pump_loop, pump, valid,
}
use aeb_node.Network.ClientSession.Stream.{pending, unsent, Refilled, Refill-cases, pending-advance}
use aeb_node.Network.ClientSession.Stream.Rounds.{
  pump_loop-done, pump_loop-again, pump_loop-returns,
}

-- The answers that are not an interruption by a signal.
abbrev pub settled : List IoResult → ℕ
settled [] = 0
settled (refused eintr ∷ rs) = settled rs
settled (r ∷ rs) = suc (settled rs)

abbrev Ends : List IoResult → Pump → Type 0
Ends rs p = (v : SessionResult × Pump) × (pump_loop rs p ≡ some v)

length-unsent-advance :
    (p : Pump) (n : ℕ)
    → 0 < length (pending p.session)
    → length (unsent (advance p (suc n))) < length (unsent p)
unfolding advance
length-unsent-advance p n h = omega (
  arith,
  ap length (pending-advance p (suc n)),
  length-drop (suc n) (pending p.session),
  length-append (pending p.session) (encodings p.queue.queue),
  length-append (pending (advance p (suc n)).session) (encodings p.queue.queue),
)

pump_loop-goes :
    (r : IoResult) (rs : List IoResult) (p p' q : Pump)
    → refill p ≡ some p'
    → answer r p' ≡ again q
    → Ends rs q
    → Ends (r ∷ rs) p
pump_loop-goes r rs p p' q e a (v, k) = (v, pump_loop-again p r rs e a ∙ k)

pump_loop-step :
    (r : IoResult) (rs : List IoResult) (p p' : Pump)
    → refill p ≡ some p'
    → Refilled p p'
    → length (unsent p) < settled (r ∷ rs)
    → ((q : Pump) → length (unsent q) < settled rs → Ends rs q)
    → Ends (r ∷ rs) p
unfolding answer
pump_loop-step (count zero) rs p p' e h m later = (_, pump_loop-returns p _ rs e refl)
pump_loop-step (count (suc n)) rs p p' e h m later =
    pump_loop-goes _ rs p p' _ e refl
      (later _ (omega (arith, length-unsent-advance p' n h.some_pending, ap length h.same_unsent)))
pump_loop-step (refused eintr) rs p p' e h m later =
    pump_loop-goes _ rs p p' _ e refl (later p' (omega (arith, ap length h.same_unsent)))
pump_loop-step (refused eagain) rs p p' e h m later = (_, pump_loop-returns p _ rs e refl)
pump_loop-step (refused (other c)) rs p p' e h m later = (_, pump_loop-returns p _ rs e refl)

pump_loop-Ends : (rs : List IoResult) (p : Pump) → length (unsent p) < settled rs → Ends rs p
pump_loop-Ends [] p m = absurd (omega arith)
pump_loop-Ends (r ∷ rs) p m = elim (Refill-cases p) [
  | inl (e, none_left) ↦ (_, pump_loop-done p (r ∷ rs) e)
  | inr (p', e, h) ↦ pump_loop-step r rs p p' e h m (pump_loop-Ends rs)
]

-- A pump returns as soon as the kernel has given more answers, interruptions aside, than there are
-- octets to send: each round sends an octet or ends the call.
pub pump_ends :
    (rs : List IoResult) (p : Pump)
    → length (unsent p) < settled rs
    → (v : SessionResult × Pump) × (pump rs p ≡ some v)
unfolding pump
pump_ends rs p m = either (not (valid p.session))
  where
    either :
        (b : Bool)
        → (v : SessionResult × Pump) × ((if b then some (failed, p) else pump_loop rs p) ≡ some v)
    either true = (_, refl)
    either false = pump_loop-Ends rs p m

-- An answer by which the kernel takes octets, or which an interruption makes the call repeat.
abbrev pub Accepts : IoResult → Type 0
Accepts (count zero) = ⊥
Accepts (count (suc n)) = Unit
Accepts (refused eintr) = Unit
Accepts (refused e) = ⊥

-- Which the loop goes on after.
answer-Accepts :
    (r : IoResult) (p : Pump)
    → Accepts r
    → 0 < length (pending p.session)
    → (q : Pump) × (answer r p ≡ again q)
      × ((rs : List IoResult)
          → length (unsent p) < settled (r ∷ rs)
          → length (unsent q) < settled rs)
unfolding answer
answer-Accepts (count zero) p h k = absurd h
answer-Accepts (count (suc n)) p h k =
    (advance p (suc n), refl, λ rs m. omega (arith, length-unsent-advance p n k))
answer-Accepts (refused eintr) p h k = (p, refl, λ rs m. m)
answer-Accepts (refused eagain) p h k = absurd h
answer-Accepts (refused (other c)) p h k = absurd h

pump_loop-Accepts :
    (rs : List IoResult) (p : Pump)
    → All Accepts rs
    → length (unsent p) < settled rs
    → (p' : Pump) × (pump_loop rs p ≡ some (progressed, p'))
pump_loop-Accepts [] p h m = absurd (omega arith)
pump_loop-Accepts (r ∷ rs) p h m = elim (Refill-cases p) [
  | inl (e, none_left) ↦ (p, pump_loop-done p (r ∷ rs) e)
  | inr (p', e, f) ↦
      (let (q, a, less) = answer-Accepts r p' (h.0) f.some_pending in
        let (p'', k) =
          pump_loop-Accepts rs q (h.1) (less rs (omega (arith, ap length f.same_unsent))) in
        (p'', pump_loop-again p r rs e a ∙ k))
]

-- While the kernel accepts octets, and gives as many answers besides interruptions as there are octets
-- to send and one more, a pump sends everything.
pub pump-Accepts :
    (rs : List IoResult) (p : Pump)
    → valid p.session ≡ true
    → All Accepts rs
    → length (unsent p) < settled rs
    → (p' : Pump) × (pump rs p ≡ some (progressed, p'))
unfolding pump
pump-Accepts rs p v h m =
    let (p', e) = pump_loop-Accepts rs p h m in
    (p', if-eq_of_false (not (valid p.session)) _ _ (ground (arith, v)) e)
