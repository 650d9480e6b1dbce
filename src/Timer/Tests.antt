-- ===== src/Timer/Tests.antt =====
-- The timer at 100 Hz, which the kernel asks for, and the theorem there.
use m.Prelude.{ℕ, ◌+◌, ◌*◌, ◌/◌, ◌<◌, ◌≤◌, ◌≡◌, ◌↔◌, refl, [], ◌++◌, arith}
use m.Timer.{Timer, pit_base_frequency_hz, pit_configure_hz}
use m.Timer.Reload.{programs, configure_hz-reload}

abbrev started : Timer
started = record { outputs = []; ticks = 0 }

hundred_hz : (pit_configure_hz 100 started).outputs ≡ programs 0x9B 0x2E
unfolding pit_configure_hz
hundred_hz = refl

configure_hz-reload_example :
    (low : ℕ) × (high : ℕ) × ((pit_configure_hz 100 started).outputs ≡ [] ++ programs low high)
    × (low < 256)
    × (high < 256)
    × ((low + 256 * high ≡ pit_base_frequency_hz / 100) ↔ (19 ≤ 100))
configure_hz-reload_example = configure_hz-reload 100 started (omega arith)
