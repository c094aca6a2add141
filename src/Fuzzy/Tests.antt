-- ===== src/Fuzzy/Tests.antt =====
-- Tests of the fuzzy engine, and its theorems at concrete readings.
use empyrean_v2_backend.Base.{err, ◌≤◌, ◌≡◌, refl, ok}
use empyrean_v2_backend.Base.Int.{pos, negsuc}
use empyrean_v2_backend.Fuzzy.Membership.{
  tri, temp_low, temp_medium, temp_high, hum_dry, hum_humid, hum_wet, pm_low, pm_medium, pm_high,
  one,
}
use empyrean_v2_backend.Fuzzy.Rules.{rule_table}
use empyrean_v2_backend.Fuzzy.Tsukamoto.{
  num, missing, not_finite, Inference, infer, fired_rules, require_finite, weighted_average,
  round_half_even, sum_alpha, sum_weighted, inverse, fire_pm, fire_hum, fire_temp,
}
use empyrean_v2_backend.Base.Number.{finite, nan}
use empyrean_v2_backend.Fuzzy.Score.{infer_total}

-- 25 °C, 50 % and 75 µg/m³: eight rules fire, each at the strength 1/2.
infer_mild :
    infer (num (finite (pos 2500))) (num (finite (pos 5000))) (num (finite (pos 7500)))
    ≡ ok (record { score = 4312; rules_fired = 8 })
unfolding infer require_finite fired_rules fire_temp fire_hum fire_pm temp_low temp_medium temp_high
    hum_dry hum_humid hum_wet pm_low pm_medium pm_high rule_table inverse weighted_average
    round_half_even sum_alpha sum_weighted
infer_mild = refl

tri_degenerate : tri 150 100 100 200 ≡ one
unfolding tri
tri_degenerate = refl

infer_total_example :
    (r : Inference) × (infer
        (num (finite (negsuc 999)))
        (num (finite (pos 4000)))
        (num (finite (pos 7000)))
      ≡ ok r)
    × (r.score ≤ 10000)
    × (1 ≤ r.rules_fired)
    × (r.rules_fired ≤ 8)
infer_total_example = infer_total (negsuc 999) (pos 4000) (pos 7000)

-- An input that is not a number is refused although the temperature before it is fine.
nan_is_refused : infer (num (finite (pos 2500))) (num nan) missing ≡ err not_finite
unfolding infer require_finite
nan_is_refused = refl
