-- ===== src/Network/ClientSession/Tests.antt =====
-- Runs of the pump of network/ClientSession.cpp, and its theorems at concrete inputs.
use aeb_node.Prelude.{ℕ, zero, suc, ◌≡◌, refl, [], ◌∷◌, List, some, length, arith}
use aeb_node.Types.{default_frame}
use aeb_node.Protocol.Octets.{put_uint}
use aeb_node.Protocol.Encoder.{encode}
use aeb_node.Network.FrameQueue.{pop}
use aeb_node.Network.ClientSession.{
  SessionResult, progressed, blocked, eintr, eagain, IoResult, count, refused, adopt, no_progress,
  Pump, refill, advance, answer, pump,
}
use aeb_node.Network.ClientSession.Stream.{unsent, stream}
use aeb_node.Network.ClientSession.Stream.Rounds.{pump-stream}
use aeb_node.Network.ClientSession.Progress.{pump_ends}

-- One empty frame of 32 octets in the queue, nothing in transmission.
abbrev ready : Pump
ready = record {
  session = adopt 5;
  queue = record { queue = default_frame ∷ []; pool = []; capacity = 4 };
  progress = no_progress;
  sent = [];
}

-- The socket takes 20 octets and blocks: the 12 that are left wait for the next call.
abbrev partial : List IoResult
partial = refused eintr ∷ count 20 ∷ refused eagain ∷ []

pump-partial :
    (v : SessionResult × Pump) × (pump partial ready ≡ some v)
    × (v.0 ≡ blocked)
    × (length v.1.sent ≡ 20)
    × (length (unsent v.1) ≡ 12)
unfolding pump refill advance answer pop encode put_uint
pump-partial = (_, refl, refl, refl, refl)

pump-whole :
    (v : SessionResult × Pump) × (pump (count 20 ∷ count 12 ∷ []) ready ≡ some v)
    × (v.0 ≡ progressed)
    × (v.1.progress ≡ record { bytes_sent = 32; frames_sent = 1 })
unfolding pump refill advance answer pop encode put_uint
pump-whole = (_, refl, refl, refl)

pump-stream_example :
    (stream pump-partial.0.1 ≡ stream ready)
    × (pump-partial.0.0 ≡ progressed → unsent pump-partial.0.1 ≡ [])
pump-stream_example = pump-stream partial ready pump-partial.0.1 pump-partial.0.0 pump-partial.1

abbrev patient : ℕ → List IoResult
patient zero = []
patient (suc n) = count 1 ∷ patient n

pump_ends_example : (v : SessionResult × Pump) × (pump (patient 33) ready ≡ some v)
unfolding encode put_uint
pump_ends_example = pump_ends (patient 33) ready (omega arith)
