-- ===== src/Network/ClientSession/Kept.antt =====
-- network/ClientSession.cpp: what a pump does to the socket and to the queue.
use Prim.{tt}
use aeb_node.Prelude.{
  ℕ, zero, suc, ◌≡◌, refl, ◌∙◌, not, List, [], ◌∷◌, Option, some, none, arith, Holds, Holds-if,
  Holds-weaken,
}
use aeb_node.Network.FrameQueue.Invariant.{IsValid, pop-IsValid}
use aeb_node.Network.ClientSession.{
  SessionResult, IoResult, count, refused, eintr, eagain, other, Pump, refill, advance, Round,
  again, answer, returns, pump_loop, pump, valid, failed, progressed,
}

-- What one pump state shares with an earlier one.
pub record Kept (p p' : Pump) : Type 0 where
  pub same_socket : p'.session.socket ≡ p.session.socket
  pub queue_valid : IsValid p.queue → IsValid p'.queue

Kept-refl : (p : Pump) → Kept p p
Kept-refl p = record { same_socket = refl; queue_valid = λ v. v }

Kept-trans : {p q r : Pump} → Kept p q → Kept q r → Kept p r
Kept-trans a b = record {
  same_socket = b.same_socket ∙ a.same_socket;
  queue_valid = λ v. b.queue_valid (a.queue_valid v);
}

refill-Kept : (p : Pump) → Holds (Kept p) (refill p)
unfolding refill
refill-Kept p = ground (arith, pop-IsValid p.queue p.session.staging)

-- The states that a round of the loop may lead to.
abbrev KeptRound : Pump → Round → Type 0
KeptRound p (again q) = Kept p q
KeptRound p (returns s q) = Kept p q

advance-Kept : (p : Pump) (n : ℕ) → Kept p (advance p n)
unfolding advance
advance-Kept p n = record { same_socket = refl; queue_valid = λ v. v }

answer-Kept : (r : IoResult) (p : Pump) → KeptRound p (answer r p)
unfolding answer
answer-Kept (count zero) p = Kept-refl p
answer-Kept (count (suc n)) p = advance-Kept p (suc n)
answer-Kept (refused eintr) p = Kept-refl p
answer-Kept (refused eagain) p = Kept-refl p
answer-Kept (refused (other e)) p = Kept-refl p

abbrev pub KeptResult : Pump → SessionResult × Pump → Type 0
KeptResult p v = Kept p v.1

pump_loop-Kept : (rs : List IoResult) (p : Pump) → Holds (KeptResult p) (pump_loop rs p)
unfolding pump_loop
pump_loop-Kept [] p = no_answers (refill p)
  where
    no_answers :
        (m : Option Pump)
        → Holds (KeptResult p) (elim m [ none ↦ some (progressed, p) | some p' ↦ none ])
    no_answers none = Kept-refl p
    no_answers (some p') = tt
pump_loop-Kept (r ∷ rs) p = refilled (pump_loop-Kept rs) (refill p) (refill-Kept p)
  where
    answered :
        ((q : Pump) → Holds (KeptResult q) (pump_loop rs q))
        → (p' : Pump) (a : Round) → Kept p p'
        → KeptRound p' a
        → Holds
            (KeptResult p)
            (elim a [ again p'' ↦ pump_loop rs p'' | returns s p'' ↦ some (s, p'') ])
    answered later p' (again q) k l =
        Holds-weaken (pump_loop rs q) (later q) (λ v m. Kept-trans (Kept-trans k l) m)
    answered later p' (returns s q) k l = Kept-trans k l

    refilled :
        ((q : Pump) → Holds (KeptResult q) (pump_loop rs q))
        → (m : Option Pump) → Holds (Kept p) m
        → Holds (KeptResult p) (elim m [
          | none ↦ some (progressed, p)
          | some p' ↦ elim (answer r p') [
            | again p'' ↦ pump_loop rs p''
            | returns s p'' ↦ some (s, p'')
          ]
        ])
    refilled later none k = Kept-refl p
    refilled later (some p') k = answered later p' (answer r p') k (answer-Kept r p')

pub pump-Kept : (rs : List IoResult) (p : Pump) → Holds (KeptResult p) (pump rs p)
unfolding pump
pump-Kept rs p =
    Holds-if (KeptResult p) (not (valid p.session)) (some (failed, p)) (pump_loop rs p)
      (λ e. Kept-refl p) (λ e. pump_loop-Kept rs p)
