-- ===== src/Plan/Backoff.antt =====
-- The bounds of `automatic_retry_backoff` of src/db/mod.rs.
use dbtx.Prelude.{ℕ, zero, suc, leb, ◌-◌, ◌*◌, ◌≤◌, min, ◌≡◌, refl, nat_eq, arith, if◌then◌else◌}
use dbtx.Invocation.Deadline.{second}
use dbtx.Plan.Lifecycle.{automatic_retry_backoff}

-- The delay in seconds, as a table.
abbrev delay_at : ℕ → ℕ
delay_at n =
    if leb n 1
    then 5
    else if leb n 2
    then 10
    else if leb n 3
    then 20
    else if leb n 4
    then 40
    else if leb n 5
    then 80
    else if leb n 6
    then 160
    else 300

capped : (n : ℕ) → 7 ≤ n → min (n - 1) 6 ≡ 6
capped n h = omega arith

backoff_late : (n : ℕ) → 7 ≤ n → automatic_retry_backoff n ≡ delay_at n * second
unfolding automatic_retry_backoff
backoff_late n h = rw (capped n h) (ground arith)

backoff_table : (n : ℕ) → automatic_retry_backoff n ≡ delay_at n * second
unfolding automatic_retry_backoff
backoff_table zero = refl
backoff_table (suc zero) = refl
backoff_table (suc (suc zero)) = refl
backoff_table (suc (suc (suc zero))) = refl
backoff_table (suc (suc (suc (suc zero)))) = refl
backoff_table (suc (suc (suc (suc (suc zero))))) = refl
backoff_table (suc (suc (suc (suc (suc (suc zero)))))) = refl
backoff_table (suc (suc (suc (suc (suc (suc (suc n))))))) =
    backoff_late (suc (suc (suc (suc (suc (suc (suc n))))))) (omega arith)

delay_bounds :
    (m n : ℕ)
    → m ≤ n
    → (5 ≤ delay_at m) × (delay_at m ≤ delay_at n) × (delay_at n ≤ 300) × (7 ≤ n → delay_at n ≡ 300)
delay_bounds m n h = ground arith

-- The retry delay is at least 5 and at most 300 seconds, never shrinks as failures mount, and from
-- the seventh failure on is exactly 300 seconds.
pub backoff_bounds :
    (m n : ℕ)
    → m ≤ n
    → (5 * second ≤ automatic_retry_backoff m)
      × (automatic_retry_backoff m ≤ automatic_retry_backoff n)
      × (automatic_retry_backoff n ≤ 300 * second)
      × (7 ≤ n → automatic_retry_backoff n ≡ 300 * second)
unfolding automatic_retry_backoff
backoff_bounds m n h = ground (arith, backoff_table m, backoff_table n, delay_bounds m n h)
