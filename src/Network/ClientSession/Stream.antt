-- ===== src/Network/ClientSession/Stream.antt =====
-- network/ClientSession.cpp: the octets that a pump hands to the socket, against the encoded frames.
pub mod Rounds
use aeb_node.Prelude.{
  ℕ, zero, suc, ◌+◌, ◌≤◌, ◌<◌, ◌≡◌, ◌≢◌, refl, sym, ap, ◌∙◌, subst, ◌⊎◌, inl, inr, Bool, true,
  false, List, [], ◌∷◌, ◌++◌, Option, none, some, append_assoc, length, take, drop,
  take-append-drop, drop-add, length-drop, if◌then◌else◌, arith, not,
}
use native.Mathlib.Decide.{dec_lt}
use aeb_node.Types.{ScanFrame}
use aeb_node.Protocol.Octets.{Bytes}
use aeb_node.Protocol.Encoder.{encode}
use aeb_node.Protocol.Wire.Encoded.{encodings, length-encode_pos}
use aeb_node.Network.FrameQueue.{pop, recycle_locked}
use aeb_node.Network.ClientSession.{
  SessionResult, progressed, blocked, failed, eintr, eagain, other, IoResult, count, refused,
  ClientSession, Pump, refill, advance, again, returns, answer, pump_loop, pump, valid,
}

-- What is left of the frame in transmission.
abbrev pub pending : ClientSession → Bytes
pending s = drop s.send_offset s.send_buffer

-- The octets still to be sent, and the whole stream: what the socket has, then what is to come.
abbrev pub unsent : Pump → Bytes
unsent p = pending p.session ++ encodings p.queue.queue

abbrev pub stream : Pump → Bytes
stream p = p.sent ++ unsent p

drop_all {ℓ} : {A : Type ℓ} (n : ℕ) (xs : List A) → length xs ≤ n → drop n xs ≡ []
drop_all zero [] h = refl
drop_all zero (x ∷ xs) h = absurd (omega arith)
drop_all (suc n) [] h = refl
drop_all (suc n) (x ∷ xs) h = drop_all n xs (omega arith)

-- The pump after a frame has been taken off the queue.
abbrev refilled : Pump → ScanFrame → List ScanFrame → Pump
refilled p f rest = record p {
  session = record (p.session) { staging = f; send_buffer = encode f; send_offset = 0 };
  queue = record (recycle_locked p.queue p.session.staging) { queue = rest };
}

refill-more : (p : Pump) → p.session.send_offset < length p.session.send_buffer → refill p ≡ some p
unfolding refill
refill-more p h = ground arith

refill-empty :
    (p : Pump)
    → length p.session.send_buffer ≤ p.session.send_offset
    → p.queue.queue ≡ []
    → refill p ≡ none
unfolding refill pop
refill-empty p h e = ground arith

refill-next :
    (p : Pump) (f : ScanFrame) (rest : List ScanFrame)
    → length p.session.send_buffer ≤ p.session.send_offset
    → p.queue.queue ≡ f ∷ rest
    → refill p ≡ some (refilled p f rest)
unfolding refill pop
refill-next p f rest h e = ground arith

-- The two outcomes of `refill`: nothing is left at all, or some octets of a frame are pending.
pub record Refilled (p p' : Pump) : Type 0 where
  pub same_sent : p'.sent ≡ p.sent
  pub same_unsent : unsent p' ≡ unsent p
  pub some_pending : 0 < length (pending p'.session)
  pub same_progress : p'.progress ≡ p.progress

abbrev pub Refill : Pump → Type 0
Refill p =
    ((refill p ≡ none) × (unsent p ≡ [])) ⊎ ((p' : Pump) × (refill p ≡ some p') × Refilled p p')

-- With the frame in transmission complete, only the queue is left.
unsent_complete :
    (p : Pump) (fs : List ScanFrame)
    → length p.session.send_buffer ≤ p.session.send_offset
    → p.queue.queue ≡ fs
    → unsent p ≡ encodings fs
unsent_complete p fs h e =
    ap (λ xs. xs ++ encodings p.queue.queue)
      (drop_all p.session.send_offset p.session.send_buffer h)
    ∙ ap encodings e

Refill-complete :
    (p : Pump) (fs : List ScanFrame)
    → length p.session.send_buffer ≤ p.session.send_offset
    → p.queue.queue ≡ fs
    → Refill p
Refill-complete p [] h e = inl (refill-empty p h e, unsent_complete p [] h e)
Refill-complete p (f ∷ rest) h e = inr (
  refilled p f rest,
  refill-next p f rest h e,
  record {
    same_sent = refl;
    same_unsent = sym (unsent_complete p (f ∷ rest) h e);
    some_pending = omega (arith, length-encode_pos f);
    same_progress = refl;
  },
)

pub Refill-cases : (p : Pump) → Refill p
Refill-cases p = elim (dec_lt p.session.send_offset (length p.session.send_buffer)) [
  | yes h ↦ inr (
    p,
    refill-more p h,
    record {
      same_sent = refl;
      same_unsent = refl;
      some_pending = omega (arith, length-drop p.session.send_offset p.session.send_buffer);
      same_progress = refl;
    },
  )
  | no h ↦ Refill-complete p p.queue.queue (omega arith) refl
]

-- Octets that the socket takes leave the front of what is still to be sent.
pub pending-advance :
    (p : Pump) (n : ℕ) → pending (advance p n).session ≡ drop n (pending p.session)
unfolding advance
pending-advance p n = drop-add p.session.send_offset n p.session.send_buffer

pub stream-advance : (p : Pump) (n : ℕ) → stream (advance p n) ≡ stream p
unfolding advance
stream-advance p n =
    append_assoc p.sent (take n here)
      (drop (p.session.send_offset + n) p.session.send_buffer ++ later)
    ∙ ap (λ xs. p.sent ++ (take n here ++ (xs ++ later))) (pending-advance p n)
    ∙ ap (λ xs. p.sent ++ xs)
        (sym (append_assoc (take n here) (drop n here) later)
          ∙ ap (λ xs. xs ++ later) (take-append-drop n here))
  where
    here : Bytes
    here = pending p.session

    later : Bytes
    later = encodings p.queue.queue
