-- ===== src/Mouse/Tests.antt =====
-- A packet: left button, 3 to the left and 2 up on the screen.
use bxos.Common.{◌≡◌, refl, arith}
use bxos.Common.Int.{pos, minus}
use bxos.Mouse.{MouseDec, mouse_decode}
use bxos.Mouse.Packet.{diff, mouse_decode-packet}

abbrev waiting : MouseDec
waiting = record { buf0 = 0; buf1 = 0; buf2 = 0; phase = 1; x = pos 0; y = pos 0; btn = 0 }

-- a byte without the mark of a first byte is dropped
drops_other_byte : mouse_decode waiting 0xc9 ≡ (pos 0, waiting)
unfolding mouse_decode
drops_other_byte = refl

mouse_decode-packet_example :
    let (r1, m1) = mouse_decode waiting 0x19 in
    let (r2, m2) = mouse_decode m1 0xfd in
    let (r3, m3) = mouse_decode m2 2 in
    (r1 ≡ pos 0)
    × (r2 ≡ pos 0)
    × (r3 ≡ pos 1)
    × (m3.phase ≡ 1)
    × (m3.btn ≡ 1)
    × (m3.x ≡ minus 3)
    × (m3.y ≡ minus 2)
unfolding diff
mouse_decode-packet_example =
    mouse_decode-packet waiting 0x19 0xfd 2 refl refl (omega arith) (omega arith)
