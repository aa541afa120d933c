-- ===== src/Network/Delivery/Tests.antt =====
-- Two frames that a kernel takes octet by octet.
use Prim.{tt}
use aeb_node.Prelude.{ℕ, zero, suc, ◌≡◌, refl, List, [], ◌∷◌, some, map, All, arith}
use aeb_node.Types.{default_frame, IsFrame}
use aeb_node.Protocol.Octets.{Bytes, put_uint}
use aeb_node.Protocol.Encoder.{encode}
use aeb_node.Protocol.Decoder.{new_decoder}
use aeb_node.Protocol.Wire.Encoded.{truncated}
use aeb_node.Protocol.Receive.{receive}
use aeb_node.Protocol.Receive.Chunks.{concat}
use aeb_node.Network.ClientSession.{
  IoResult, count, refused, eintr, progressed, adopt, no_progress, Pump, pump,
}
use aeb_node.Network.ClientSession.Progress.{Accepts}
use aeb_node.Network.Delivery.{pump-received}

abbrev queued : Pump
queued = record {
  session = adopt 5;
  queue = record {
    queue = default_frame ∷ record default_frame { sequence = 7 } ∷ [];
    pool = [];
    capacity = 4;
  };
  progress = no_progress;
  sent = [];
}

abbrev octet_by_octet : ℕ → List IoResult
octet_by_octet zero = refused eintr ∷ count 1 ∷ []
octet_by_octet (suc n) = count 1 ∷ octet_by_octet n

octets_taken : (n : ℕ) → All Accepts (octet_by_octet n)
octets_taken zero = (tt, (tt, tt))
octets_taken (suc n) = (tt, octets_taken n)

frames : All IsFrame queued.queue.queue
frames = ((omega arith, omega arith, tt), ((omega arith, omega arith, tt), tt))

pump-received_example :
    (p' : Pump) × (pump (octet_by_octet 64) queued ≡ some (progressed, p'))
    × ((chunks : List Bytes)
        → concat chunks ≡ p'.sent
        → receive chunks new_decoder ≡ some (map truncated queued.queue.queue, new_decoder))
unfolding encode put_uint
pump-received_example =
    pump-received (octet_by_octet 64) queued refl refl refl frames (octets_taken 64) (omega arith)
