-- ===== src/Mouse.antt =====
-- The packet decoder of harib27f/haribote/mouse.c.
pub mod Packet
mod Tests
use bxos.Common.{ℕ, zero, suc, ◌+◌, ◌-◌, ◌*◌, ◌/◌, ◌%◌, List, Bool, ◌&&◌, ltb, ◌==◌, if◌then◌else◌}
use bxos.Common.Int.{ℤ, pos, negsuc, minus}

-- `struct MOUSE_DEC`; `buf0` to `buf2` are the elements of `buf`
pub record MouseDec : Type 0 where
  pub buf0 : ℕ
  pub buf1 : ℕ
  pub buf2 : ℕ
  pub phase : ℕ
  pub x : ℤ
  pub y : ℤ
  pub btn : ℕ

-- `(dat & 0xc8) == 0x08`
abbrev pub is_first : ℕ → Bool
is_first dat = ((dat / 64 % 4) == 0) && ((dat / 8 % 2) == 1)

-- a byte with `0xffffff00` or-ed to it if a bit of the first byte is set, as a C int
abbrev pub signed : ℕ → ℕ → ℕ → ℤ
signed first bit dat = if (first / bit % 2) == 1 then negsuc (255 - dat) else pos dat

abbrev pub negated : ℤ → ℤ
negated (pos zero) = pos 0
negated (pos (suc n)) = negsuc n
negated (negsuc n) = pos (n + 1)

unfoldable pub mouse_decode : MouseDec → ℕ → ℤ × MouseDec
mouse_decode mdec dat =
    if mdec.phase == 0
    then (pos 0, if dat == 0xfa then record mdec { phase = 1 } else mdec)
    else if mdec.phase == 1
    then (pos 0, if is_first dat then record mdec { buf0 = dat; phase = 2 } else mdec)
    else if mdec.phase == 2
    then (pos 0, record mdec { buf1 = dat; phase = 3 })
    else if mdec.phase == 3
    then (
      pos 1,
      record mdec {
        buf2 = dat;
        phase = 1;
        btn = mdec.buf0 % 8;
        x = signed mdec.buf0 16 mdec.buf1;
        y = negated (signed mdec.buf0 32 dat);
      },
    )
    else (minus 1, mdec)
