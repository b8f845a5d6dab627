-- ===== src/Scroll/Ring.antt =====
-- The indices of the ring of lines.
use bxos.Common.{ℕ, suc, ◌+◌, ◌-◌, ◌%◌, ◌≤◌, ◌<◌, ◌≡◌, ◌≢◌, arith}
use bxos.Scroll.{slot}

-- a line keeps its index when the ring grows
pub slot-grown :
    (h c i : ℕ) → h < 512 → c < 512 → i ≤ c → slot ((h + 1) % 512) (c + 1) i ≡ slot h c i
slot-grown h c i a b d = omega arith

-- in a full ring the lines move up by one
pub slot-full : (h i : ℕ) → h < 512 → i < 512 → slot ((h + 1) % 512) 512 i ≡ slot h 512 (suc i)
slot-full h i a b = omega arith

pub slot-full_last : (h : ℕ) → h < 512 → slot ((h + 1) % 512) 512 511 ≡ h
slot-full_last h a = omega arith

pub slot-full_ne : (h i : ℕ) → h < 512 → i < 511 → slot h 512 (suc i) ≢ h
slot-full_ne h i a b = λ p. omega arith

pub slot_newest : (h c : ℕ) → h < 512 → c < 512 → slot h c c ≡ h
slot_newest h c a b = omega arith

pub slot_cur : (h c : ℕ) → h < 512 → 0 < c → c ≤ 512 → slot h c (c - 1) ≡ (h + 512 - 1) % 512
slot_cur h c a b d = omega arith

pub slot_apart :
    (h c i j : ℕ) → h < 512 → c ≤ 512 → i < 512 → j < 512 → i ≢ j → slot h c i ≢ slot h c j
slot_apart h c i j a b d e n = λ p. n (omega arith)
