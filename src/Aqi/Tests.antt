-- ===== src/Aqi/Tests.antt =====
-- Tests of the AQI, and its theorems at concrete concentrations.
use empyrean_v2_backend.Base.{◌≡◌, refl, some, ok, arith}
use empyrean_v2_backend.Base.Int.{pos}
use empyrean_v2_backend.Base.Number.{finite, nan}
use empyrean_v2_backend.Aqi.Bands.{
  pm25_bands, pm10_bands, rate, sub_band, interpolate, compute_aqi, candidate, aqi_for, max_from,
  moderate, sensitive, very_unhealthy, hazardous,
}
use empyrean_v2_backend.Aqi.Index.{rate_gap, rate_drop}
use empyrean_v2_backend.Aqi.Composite.{worst, usable, compute_aqi-eq-worst}

-- 35.0 µg/m³ of PM2.5 and 20.0 of PM10.
compute_aqi_sample :
    compute_aqi (some (finite (pos 3500))) (some (finite (pos 2000)))
    ≡ ok (some (record { aqi = pos 99; category = moderate }))
unfolding compute_aqi candidate aqi_for max_from rate sub_band interpolate
compute_aqi_sample = refl

rate_gap_example : rate (pos 3545) pm25_bands ≡ record { aqi = pos 100; category = sensitive }
rate_gap_example = rate_gap 3545 (omega arith) (omega arith)

rate_drop_example :
    (rate (pos 42400) pm10_bands ≡ record { aqi = pos 300; category = very_unhealthy })
    × (rate (pos 42410) pm10_bands ≡ record { aqi = pos 299; category = hazardous })
rate_drop_example = rate_drop 42410 (omega arith) (omega arith)

compute_aqi_example :
    compute_aqi (some nan) (some (finite (pos 6000)))
    ≡ ok (worst (usable (some nan)) (usable (some (finite (pos 6000)))))
compute_aqi_example = compute_aqi-eq-worst (some nan) (some (finite (pos 6000)))
