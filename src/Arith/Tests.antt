-- ===== src/Arith/Tests.antt =====
-- Divisions of particular numbers.
use mos.Base.{◌%◌, ◌/◌, ◌≡◌, arith, ◌==◌, if◌then◌else◌}
use mos.Arith.{traps, gives, udivmod, divmod}
use mos.Arith.Divide.{udivmod_lem}
use mos.Arith.BitByBit.{divmod_lem}

udivmod_example :
    udivmod 1000007 1000 ≡ (if 1000 == 0 then traps else gives (1000007 / 1000) (1000007 % 1000))
udivmod_example = udivmod_lem 1000007 1000 (omega arith)

by_zero : udivmod 5 0 ≡ traps
by_zero = udivmod_lem 5 0 (omega arith)

divmod_run : divmod 1234567 10 ≡ (123456, 7)
divmod_run = divmod_lem 1234567 10 (omega arith) (omega arith) (omega arith)
