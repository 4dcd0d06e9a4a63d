-- ===== src/Srt/Control/Sequence.antt =====
-- SeqDiff as a distance on the circle of 31-bit sequence numbers (libsrt/control.go).
use ggmpeg.Prelude.{ℕ, ◌+◌, ◌%◌, ◌^◌, ◌<◌, ◌≤◌, ◌≡◌, ◌≢◌, arith}
use ggmpeg.Prelude.Int.{pos, negsuc, ◌-ℤ◌}
use ggmpeg.Srt.Control.{seq_diff}

-- A number that is `k` steps ahead of `b`, with or without a wrap at 2 ^ 31, has distance `k`, for
-- up to 2 ^ 30 steps; one that is `k + 1` steps behind, for fewer than 2 ^ 30 steps, has distance
-- `-(k + 1)`.
pub seq_diff_lem :
    (b k : ℕ)
    → b < 2 ^ 31
    → (k ≤ 2 ^ 30 → seq_diff ((b + k) % 2 ^ 31) b ≡ pos k)
      × (k + 1 < 2 ^ 30 → seq_diff b ((b + k + 1) % 2 ^ 31) ≡ negsuc k)
unfolding seq_diff
seq_diff_lem b k h = (λ p. ground arith, λ p. ground arith)

-- The distance is antisymmetric, but for numbers exactly half the circle apart.
pub seq_diff_antisymm :
    (a b : ℕ)
    → a < 2 ^ 31
    → b < 2 ^ 31
    → seq_diff a b ≢ pos (2 ^ 30)
    → seq_diff b a ≡ pos 0 -ℤ seq_diff a b
unfolding seq_diff ◌-ℤ◌
seq_diff_antisymm a b ha hb ne = ground arith
