-- ===== src/Mouse/Packet.antt =====
-- What a stream of bytes decodes to: packets of three bytes, movements as nine-bit numbers.
use bxos.Common.{ℕ, zero, suc, ◌-◌, ◌*◌, ◌/◌, ◌%◌, ◌≤◌, ◌<◌, ◌≡◌, ◌⊎◌, refl, ap, ◌∙◌, true, arith}
use bxos.Common.Int.{ℤ, pos, negsuc}
use bxos.Mouse.{MouseDec, mouse_decode, is_first, signed, negated}

-- the integer `a - b`
unfoldable pub diff : ℕ → ℕ → ℤ
diff a zero = pos a
diff zero (suc b) = negsuc b
diff (suc a) (suc b) = diff a b

diff_pos : (a b : ℕ) → b ≤ a → diff a b ≡ pos (a - b)
unfolding diff
diff_pos a zero h = ap pos (omega arith)
diff_pos zero (suc b) h = absurd (omega arith)
diff_pos (suc a) (suc b) h = diff_pos a b (omega arith) ∙ ap pos (omega arith)

diff_neg : (a b : ℕ) → a < b → diff a b ≡ negsuc (b - a - 1)
unfolding diff
diff_neg a zero h = absurd (omega arith)
diff_neg zero (suc b) h = ap negsuc (omega arith)
diff_neg (suc a) (suc b) h = diff_neg a b (omega arith) ∙ ap negsuc (omega arith)

signed-diff : (b0 bit v : ℕ) → v < 256 → signed b0 bit v ≡ diff v (256 * (b0 / bit % 2))
signed-diff b0 bit v h =
    ground (arith, diff_pos v (256 * (b0 / bit % 2)), diff_neg v (256 * (b0 / bit % 2)))

negated-diff : (a b : ℕ) → negated (diff a b) ≡ diff b a
unfolding diff
negated-diff zero zero = refl
negated-diff (suc a) zero = refl
negated-diff zero (suc b) = ap pos (omega arith)
negated-diff (suc a) (suc b) = negated-diff a b

first_byte :
    (mdec : MouseDec) (b0 : ℕ)
    → mdec.phase ≡ 1
    → is_first b0 ≡ true
    → mouse_decode mdec b0 ≡ (pos 0, record mdec { buf0 = b0; phase = 2 })
unfolding mouse_decode
first_byte mdec b0 h f = rw (h, f)

-- The decoder starts in phase 0 to 3 and stays there. It never reports an error there; it reports a
-- packet exactly at the byte that it gets in phase 3, and then waits for the next packet.
pub mouse_decode-phase :
    (mdec : MouseDec) (dat : ℕ)
    → mdec.phase ≤ 3
    → ((mouse_decode mdec dat).1.phase ≤ 3)
      × (((mdec.phase ≡ 3)
            × ((mouse_decode mdec dat).0 ≡ pos 1)
            × ((mouse_decode mdec dat).1.phase ≡ 1))
          ⊎ ((mdec.phase < 3) × ((mouse_decode mdec dat).0 ≡ pos 0)))
unfolding mouse_decode
mouse_decode-phase mdec dat h = (ground arith, ground arith)

-- From the phase that waits for a packet, three bytes, the first of them marked as a first one, are
-- reported as one packet with the third: the buttons are the low bits of the first byte, and the
-- movement is that of the two nine-bit two's complement numbers, with y turned round.
pub mouse_decode-packet :
    (mdec : MouseDec) (b0 b1 b2 : ℕ)
    → mdec.phase ≡ 1
    → is_first b0 ≡ true
    → b1 < 256
    → b2 < 256
    → let (r1, m1) = mouse_decode mdec b0 in
      let (r2, m2) = mouse_decode m1 b1 in
      let (r3, m3) = mouse_decode m2 b2 in
      (r1 ≡ pos 0)
      × (r2 ≡ pos 0)
      × (r3 ≡ pos 1)
      × (m3.phase ≡ 1)
      × (m3.btn ≡ b0 % 8)
      × (m3.x ≡ diff b1 (256 * (b0 / 16 % 2)))
      × (m3.y ≡ diff (256 * (b0 / 32 % 2)) b2)
unfolding mouse_decode
mouse_decode-packet mdec b0 b1 b2 h f l1 l2 = rw (first_byte mdec b0 h f) (
  refl,
  refl,
  refl,
  refl,
  refl,
  signed-diff b0 16 b1 l1,
  ap negated (signed-diff b0 32 b2 l2) ∙ negated-diff b2 (256 * (b0 / 32 % 2)),
)
