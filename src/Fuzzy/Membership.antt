-- ===== src/Fuzzy/Membership.antt =====
-- fuzzy/membership.py. Inputs are hundredths of a unit. A grade counts 1/20000: every ramp of the
-- nine terms is 10, 20, 40, 50 or 100 units wide, so its slope is a whole number of grade steps for
-- each hundredth, and the division of `grade` leaves no remainder.
use empyrean_v2_backend.Base.{ℕ, ◌-◌, ◌*◌, ◌/◌, ◌||◌, ◌&&◌, leb, ltb, ◌==◌, if◌then◌else◌}
use empyrean_v2_backend.Base.Int.{ℤ, clamp}

-- The grade 1.0.
abbrev pub one : ℕ
one = 20000

-- rise / run
abbrev pub grade : ℕ → ℕ → ℕ
grade rise run = rise * one / run

unfoldable pub tri : ℕ → ℕ → ℕ → ℕ → ℕ
tri x a b c =
    if leb x a || leb c x
    then 0
    else if b == a
    then one
    else if leb x b
    then grade (x - a) (b - a)
    else grade (c - x) (c - b)

unfoldable pub trap : ℕ → ℕ → ℕ → ℕ → ℕ → ℕ
trap x a b c d =
    if leb b x && leb x c
    then one
    else if ltb x b
    then (if b == a then one else if leb x a then 0 else grade (x - a) (b - a))
    else if c == d
    then one
    else if leb d x
    then 0
    else grade (d - x) (d - c)

abbrev pub t_hi : ℕ
t_hi = 5000

abbrev pub h_hi : ℕ
h_hi = 10000

abbrev pub p_hi : ℕ
p_hi = 50000

unfoldable pub temp_low : ℤ → ℕ
unfolding trap
temp_low t = trap (clamp t 0 t_hi) 0 0 1500 3500

unfoldable pub temp_medium : ℤ → ℕ
unfolding trap
temp_medium t = trap (clamp t 0 t_hi) 1500 3500 4000 5000

unfoldable pub temp_high : ℤ → ℕ
unfolding trap
temp_high t = trap (clamp t 0 t_hi) 4000 5000 5000 5000

unfoldable pub hum_dry : ℤ → ℕ
unfolding trap
hum_dry h = trap (clamp h 0 h_hi) 0 0 3000 7000

unfoldable pub hum_humid : ℤ → ℕ
unfolding trap
hum_humid h = trap (clamp h 0 h_hi) 3000 7000 8000 10000

unfoldable pub hum_wet : ℤ → ℕ
unfolding trap
hum_wet h = trap (clamp h 0 h_hi) 8000 10000 10000 10000

unfoldable pub pm_low : ℤ → ℕ
unfolding trap
pm_low p = trap (clamp p 0 p_hi) 0 0 5000 10000

unfoldable pub pm_medium : ℤ → ℕ
unfolding trap
pm_medium p = trap (clamp p 0 p_hi) 5000 10000 20000 30000

unfoldable pub pm_high : ℤ → ℕ
unfolding trap
pm_high p = trap (clamp p 0 p_hi) 20000 30000 50000 50000
