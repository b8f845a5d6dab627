-- ===== src/Fat/Sectors.antt =====
-- Where the clusters of a volume lie on the disk.
use bxos.Common.{ℕ, zero, suc, ◌+◌, ◌-◌, ◌*◌, ◌%◌, ◌≤◌, ◌<◌, ◌≡◌, true, arith}
use bxos.Memory.{word}
use bxos.Fat.{Mount, cluster_lba, valid_data_cluster}

-- `a` rounds of `w` and one more fit under `b` rounds, for `a` less than `b`
rounds : (a b w : ℕ) → a < b → a * w + w ≤ b * w
rounds a zero w h = absurd (omega arith)
rounds zero (suc b) w h = omega arith
rounds (suc a) (suc b) w h = omega (arith, rounds a b w (omega arith))

-- The sectors of a volume fit the word: the data area ends within it.
abbrev pub FitsWord : Mount → Type 0
FitsWord m = m.data_lba + m.cluster_count * m.sectors_per_cluster < word

bounds : (m : Mount) (c : ℕ) → valid_data_cluster m c ≡ true → (2 ≤ c) × (c < m.cluster_count + 2)
unfolding valid_data_cluster
bounds m c h = (ground arith, ground arith)

start :
    (m : Mount) (c : ℕ)
    → FitsWord m
    → m.cluster_count + 2 < word
    → valid_data_cluster m c ≡ true
    → cluster_lba m c ≡ m.data_lba + (c - 2) * m.sectors_per_cluster
unfolding cluster_lba valid_data_cluster
start m c f w h =
    let low : (c - 2) < m.cluster_count = ground arith in
    let index : (c + word - 2) % word ≡ c - 2 = ground arith in
    let below = rounds (c - 2) m.cluster_count m.sectors_per_cluster low in
    rw index (omega (arith, below, f))

-- A data cluster lies in the data area.
pub cluster_lba_bounds :
    (m : Mount) (c : ℕ)
    → FitsWord m
    → m.cluster_count + 2 < word
    → valid_data_cluster m c ≡ true
    → (m.data_lba ≤ cluster_lba m c)
      × (cluster_lba m c + m.sectors_per_cluster
          ≤ m.data_lba + m.cluster_count * m.sectors_per_cluster)
cluster_lba_bounds m c f w v =
    let low = rounds (c - 2) m.cluster_count m.sectors_per_cluster (omega (arith, bounds m c v)) in
    (omega (arith, start m c f w v), omega (arith, start m c f w v, low))

-- On a volume whose sectors and cluster numbers fit the word, two data clusters occupy different
-- sectors, and all of them lie in the data area: the sectors of the cluster with the lower number end
-- before those of the other begin, and these end with the data area at the latest.
pub cluster_lba-apart :
    (m : Mount) (c d : ℕ)
    → FitsWord m
    → m.cluster_count + 2 < word
    → valid_data_cluster m c ≡ true
    → valid_data_cluster m d ≡ true
    → c < d
    → (m.data_lba ≤ cluster_lba m c)
      × (cluster_lba m c + m.sectors_per_cluster ≤ cluster_lba m d)
      × (cluster_lba m d + m.sectors_per_cluster
          ≤ m.data_lba + m.cluster_count * m.sectors_per_cluster)
cluster_lba-apart m c d f w vc vd l =
    let ec = start m c f w vc in
    let ed = start m d f w vd in
    let bc = bounds m c vc in
    let bd = bounds m d vd in
    let apart = rounds (c - 2) (d - 2) m.sectors_per_cluster (omega (arith, bc, l)) in
    let below = rounds (d - 2) m.cluster_count m.sectors_per_cluster (omega (arith, bd)) in
    (omega (arith, ec), omega (arith, ec, ed, apart), omega (arith, ed, below))
