-- ===== src/Network/WakePipe/Tests.antt =====
-- Two threads signal: the first one writes, the second one finds the flag set.
use aeb_node.Prelude.{ℕ, ◌≤◌, ◌<◌, ◌≡◌, refl, true, false, arith}
use aeb_node.Network.WakePipe.Threads.{
  Threads, outside, before_exchange, before_write, polling, at_phase, at_rest, exchange, write_byte,
  Reach, start, further, Leads, looks, lays_down, exchanges, writes,
}
use aeb_node.Network.WakePipe.Wakeup.{no_lost_wakeup}
use aeb_node.Network.WakePipe.Coalesced.{at_most_one_byte}

abbrev waiting : Threads
waiting = record at_rest { io = polling; news = false }

abbrev both_laid_down : Threads
both_laid_down = record waiting {
  phase = at_phase (at_phase waiting.phase 0 before_exchange) 1 before_exchange;
  news = true;
}

abbrev signalled : Threads
signalled = exchange 1 (write_byte 0 (exchange 0 both_laid_down))

signalled_reached : Reach signalled
unfolding exchange write_byte
signalled_reached =
    further _ _
      (further _ _
        (further _ _
          (further _ _
            (further _ _ (further _ _ start (looks at_rest refl)) (lays_down 0 waiting refl))
            (lays_down 1
              (record waiting { phase = at_phase waiting.phase 0 before_exchange; news = true })
              refl))
          (exchanges 0 both_laid_down refl))
        (writes 0 (exchange 0 both_laid_down) refl))
      (exchanges 1 (write_byte 0 (exchange 0 both_laid_down)) refl)

all_outside : (i : ℕ) → signalled.phase i ≡ outside
unfolding exchange write_byte
all_outside i = ground arith

no_lost_wakeup_example :
    (0 < signalled.bytes) × ((t : Threads) × Leads signalled t × (t.news ≡ false) × (t.bytes ≡ 0))
unfolding exchange write_byte
no_lost_wakeup_example = no_lost_wakeup signalled signalled_reached refl refl all_outside

at_most_one_byte_example :
    (signalled.bytes ≤ 1)
    × ((i : ℕ) → signalled.phase i ≡ before_write → signalled.bytes ≡ 0)
    × ((i j : ℕ) → signalled.phase i ≡ before_write → signalled.phase j ≡ before_write → i ≡ j)
at_most_one_byte_example = at_most_one_byte signalled signalled_reached
