-- ===== src/Network/Delivery.antt =====
-- From the queue of the server (network/ClientSession.cpp) to the frames that a client decodes
-- (common/Protocol.hpp).
mod Tests
use aeb_node.Prelude.{
  ◌<◌, ◌≡◌, refl, subst, sym, ap, ◌∙◌, true, List, [], ◌++◌, some, length, map, All, append-nil,
}
use aeb_node.Types.{IsFrame}
use aeb_node.Protocol.Octets.{Bytes}
use aeb_node.Protocol.Decoder.{new_decoder}
use aeb_node.Protocol.Wire.Encoded.{encodings, truncated}
use aeb_node.Protocol.Receive.{receive}
use aeb_node.Protocol.Receive.Chunks.{concat, receive-encodings}
use aeb_node.Network.ClientSession.{IoResult, progressed, Pump, pump, valid}
use aeb_node.Network.ClientSession.Stream.{pending, unsent}
use aeb_node.Network.ClientSession.Stream.Rounds.{pump-stream}
use aeb_node.Network.ClientSession.Progress.{settled, Accepts, pump-Accepts}

-- A session between two frames whose kernel accepts octets, in whatever portions and with whatever
-- interruptions, sends every queued frame, and a client that reads what was sent, in whatever portions,
-- decodes those frames in order, up to the limit on points, and is left with an empty buffer. The frames
-- have fields in their types' ranges, and there are more answers besides interruptions than octets.
pub pump-received :
    (rs : List IoResult) (p : Pump)
    → valid p.session ≡ true
    → pending p.session ≡ []
    → p.sent ≡ []
    → All IsFrame p.queue.queue
    → All Accepts rs
    → length (encodings p.queue.queue) < settled rs
    → (p' : Pump) × (pump rs p ≡ some (progressed, p'))
      × ((chunks : List Bytes)
          → concat chunks ≡ p'.sent
          → receive chunks new_decoder ≡ some (map truncated p.queue.queue, new_decoder))
pump-received rs p v none_pending none_sent frames accepts m =
    let before : unsent p ≡ encodings p.queue.queue =
      ap (λ xs. xs ++ encodings p.queue.queue) none_pending in
    let (p', e) =
      pump-Accepts rs p v accepts (subst (λ xs. length xs < settled rs) (sym before) m) in
    let (same, done) = pump-stream rs p p' progressed e in
    (
      p',
      e,
      λ chunks c. receive-encodings chunks p.queue.queue frames (
          c
          ∙ sym (append-nil p'.sent)
          ∙ ap (λ xs. p'.sent ++ xs) (sym (done refl))
          ∙ same
          ∙ ap (λ xs. xs ++ unsent p) none_sent
          ∙ before),
    )
