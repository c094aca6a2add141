-- ===== src/Fuzzy/Partition.antt =====
-- The three terms of each input share out the grade 1.0 (fuzzy/membership.py).
use empyrean_v2_backend.Base.{ℕ, ◌+◌, ◌≤◌, ◌≡◌, ◌⊎◌, arith}
use empyrean_v2_backend.Base.Int.{ℤ, pos, negsuc, clamp}
use empyrean_v2_backend.Fuzzy.Membership.{
  one, trap, t_hi, h_hi, p_hi, temp_low, temp_medium, temp_high, hum_dry, hum_humid, hum_wet,
  pm_low, pm_medium, pm_high,
}

-- Grades `low`, `mid` and `high` that add up to 1.0, of which an outer one is zero.
pub record IsPartition (low mid high : ℕ) : Type 0 where
  pub total : low + mid + high ≡ one
  pub outer : (low ≡ 0) ⊎ (high ≡ 0)

temp_at :
    (x : ℕ)
    → x ≤ 5000
    → IsPartition (trap x 0 0 1500 3500) (trap x 1500 3500 4000 5000) (trap x 4000 5000 5000 5000)
unfolding trap
temp_at x h = ground arith

hum_at :
    (x : ℕ)
    → x ≤ 10000
    → IsPartition
        (trap x 0 0 3000 7000)
        (trap x 3000 7000 8000 10000)
        (trap x 8000 10000 10000 10000)
unfolding trap
hum_at x h = ground arith

pm_at :
    (x : ℕ)
    → x ≤ 50000
    → IsPartition
        (trap x 0 0 5000 10000)
        (trap x 5000 10000 20000 30000)
        (trap x 20000 30000 50000 50000)
unfolding trap
pm_at x h = ground arith

clamp-le : (x : ℤ) (hi : ℕ) → clamp x 0 hi ≤ hi
clamp-le (pos n) hi = omega arith
clamp-le (negsuc n) hi = omega arith

-- At every temperature, humidity and PM2.5 value, also outside the domains, the grades of the three
-- terms add up to exactly 1.0, and the grade of the lowest or of the highest term is zero.
pub memberships-IsPartition :
    (t h p : ℤ)
    → IsPartition (temp_low t) (temp_medium t) (temp_high t)
      × IsPartition (hum_dry h) (hum_humid h) (hum_wet h)
      × IsPartition (pm_low p) (pm_medium p) (pm_high p)
unfolding temp_low temp_medium temp_high hum_dry hum_humid hum_wet pm_low pm_medium pm_high
memberships-IsPartition t h p = (
  temp_at (clamp t 0 t_hi) (clamp-le t t_hi),
  hum_at (clamp h 0 h_hi) (clamp-le h h_hi),
  pm_at (clamp p 0 p_hi) (clamp-le p p_hi),
)
