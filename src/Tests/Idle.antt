-- ===== src/Tests/Idle.antt =====
-- The theorems on the idle wait and on the counters, at concrete inputs.
use simple_await.Base.{true, false, arith}
use simple_await.Idle.{Rtos, platform_wait_until}
use simple_await.Idle.Wait.{WaitCase, platform_wait_until-WaitCase}

abbrev pub esp32 : Rtos
esp32 = record { port_max_delay = 4294967295; tick_rate_hz = 1000 }

platform_wait_until-WaitCase_example :
    WaitCase esp32 true 100 2600 false (platform_wait_until esp32 true 100 2600 false)
platform_wait_until-WaitCase_example =
    platform_wait_until-WaitCase esp32 true 100 2600 false (omega arith) (omega arith) (omega arith)
      (omega arith)
