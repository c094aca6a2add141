-- ===== src/Pipeline/Built.antt =====
-- When the reading of a payload can be built, and that it is sound then (tasks/process_reading.py, `_build_reading`).
use empyrean_v2_backend.Base.{
  ℕ, ◌+◌, ◌≤◌, ◌≡◌, ◌⊎◌, refl, ap, arith, Bool, true, false, ◌&&◌, Option, none, some, ok, err, inl,
  inr,
}
use empyrean_v2_backend.Base.Int.{ℤ, pos}
use empyrean_v2_backend.Base.Number.{Number, finite, nan, inf, neg_inf}
use empyrean_v2_backend.Fuzzy.Tsukamoto.{fuzzy_score}
use empyrean_v2_backend.Fuzzy.Score.{infer_total}
use empyrean_v2_backend.Aqi.Bands.{compute_aqi}
use empyrean_v2_backend.Aqi.Composite.{worst, compute_aqi-eq-worst}
use empyrean_v2_backend.Pipeline.Enrich.{
  Time, Member, missing, number, text, Payload, Reading, value_error, to_float, finite_of,
  valid_float, or_default, to_number, time_skew_limit, parse_time, score_of, rating_of,
  build_reading, absent, unparseable, at,
}

pub parse_time_bounds :
    (now : ℕ) (t : Time)
    → (now ≤ parse_time now t + time_skew_limit) × (parse_time now t ≤ now + time_skew_limit)
unfolding parse_time
parse_time_bounds now absent = omega arith
parse_time_bounds now unparseable = omega arith
parse_time_bounds now (at t) = ground arith

score_of_total : (t h p : Option ℤ) → (score : ℕ) × (score_of t h p ≡ ok score) × (score ≤ 10000)
unfolding score_of fuzzy_score
score_of_total t h p =
    let (r, e, high, few, many) =
      infer_total (or_default t (pos 2500)) (or_default h (pos 0)) (or_default p (pos 0)) in
    (r.score, rw (score_of, fuzzy_score, e) refl, high)

-- A reading is sound: it belongs to the node, its time is within a day of the server's, its score is
-- between 0.00 and 100.00, and its rating is the worse one of its pollutants.
pub record IsSound (now id : ℕ) (r : Reading) : Type 0 where
  pub node : r.node_id ≡ id
  pub not_early : now ≤ r.time + time_skew_limit
  pub not_late : r.time ≤ now + time_skew_limit
  pub score : r.fuzzy_score ≤ 10000
  pub rating : r.rating ≡ worst r.pm25 r.pm10

compute_aqi-to_number : (x y : Option ℤ) → compute_aqi (to_number x) (to_number y) ≡ ok (worst x y)
compute_aqi-to_number none none = compute_aqi-eq-worst none none
compute_aqi-to_number none (some y) = compute_aqi-eq-worst none (some (finite y))
compute_aqi-to_number (some x) none = compute_aqi-eq-worst (some (finite x)) none
compute_aqi-to_number (some x) (some y) = compute_aqi-eq-worst (some (finite x)) (some (finite y))

rating_of_total : (x y : Option ℤ) → rating_of x y ≡ ok (worst x y)
unfolding rating_of
rating_of_total x y = rw (rating_of, compute_aqi-to_number x y) refl

-- Whether `float` can read a member, and the finite number that it reads.
abbrev pub is_readable : Member → Bool
is_readable missing = true
is_readable (number x) = true
is_readable (text none) = false
is_readable (text (some x)) = true

abbrev pub finite_in : Option Number → Option ℤ
finite_in none = none
finite_in (some (finite x)) = some x
finite_in (some nan) = none
finite_in (some inf) = none
finite_in (some neg_inf) = none

abbrev pub value_of : Member → Option ℤ
value_of missing = none
value_of (number x) = finite_in (some x)
value_of (text x) = finite_in x

finite_lem : (x : Option Number) → finite_of x ≡ finite_in x
unfolding finite_of
finite_lem none = refl
finite_lem (some (finite x)) = refl
finite_lem (some nan) = refl
finite_lem (some inf) = refl
finite_lem (some neg_inf) = refl

member_cases :
    (m : Member)
    → ((valid_float m ≡ ok (value_of m)) × (is_readable m ≡ true))
      ⊎ ((valid_float m ≡ err value_error) × (is_readable m ≡ false))
unfolding valid_float to_float finite_of
member_cases missing = inl (refl, refl)
member_cases (number x) = inl (ap ok (finite_lem (some x)), refl)
member_cases (text none) = inr (refl, refl)
member_cases (text (some x)) = inl (ap ok (finite_lem (some x)), refl)

-- Every numeric member of the payload can be read.
abbrev pub is_legible : Payload → Bool
is_legible p =
    is_readable p.temperature
    && (is_readable p.humidity
        && (is_readable p.pm25
            && (is_readable p.pm10
                && (is_readable p.pressure
                    && (is_readable p.voc_ohm
                        && (is_readable p.mq135_ppm
                            && (is_readable p.pm1 && is_readable p.battery_v)))))))

-- The reading that a legible payload makes.
abbrev pub reading_from : ℕ → ℕ → Payload → ℕ → Reading
reading_from now id p score = record {
  time = parse_time now p.time;
  node_id = id;
  temperature = value_of p.temperature;
  humidity = value_of p.humidity;
  pressure = value_of p.pressure;
  voc_ohm = value_of p.voc_ohm;
  mq135_ppm = value_of p.mq135_ppm;
  pm1 = value_of p.pm1;
  pm25 = value_of p.pm25;
  pm10 = value_of p.pm10;
  battery_v = value_of p.battery_v;
  fuzzy_score = score;
  rating = worst (value_of p.pm25) (value_of p.pm10);
  is_anomaly = false;
}

-- A legible payload gives a reading, and any other raises.
pub build_reading_cases :
    (now id : ℕ) (p : Payload)
    → ((is_legible p ≡ true)
        × ((score : ℕ) × (score ≤ 10000)
            × (build_reading now id p ≡ ok (reading_from now id p score))))
      ⊎ ((is_legible p ≡ false) × (build_reading now id p ≡ err value_error))
unfolding build_reading
build_reading_cases now id p =
    let (score, e, high) =
      score_of_total (value_of p.temperature) (value_of p.humidity) (value_of p.pm25) in
    let f = rating_of_total (value_of p.pm25) (value_of p.pm10) in
    elim (member_cases p.temperature) [
      | inr (e0, r0) ↦ inr (ground (arith, r0), rw (build_reading, e0) refl)
      | inl (e0, r0) ↦ elim (member_cases p.humidity) [
        | inr (e1, r1) ↦ inr (ground (arith, r0, r1), rw (build_reading, e0, e1) refl)
        | inl (e1, r1) ↦ elim (member_cases p.pm25) [
          | inr (e2, r2) ↦ inr (ground (arith, r0, r1, r2), rw (build_reading, e0, e1, e2) refl)
          | inl (e2, r2) ↦ elim (member_cases p.pm10) [
            | inr (e3, r3) ↦
                inr (ground (arith, r0, r1, r2, r3), rw (build_reading, e0, e1, e2, e3) refl)
            | inl (e3, r3) ↦ elim (member_cases p.pressure) [
              | inr (e4, r4) ↦ inr (
                ground (arith, r0, r1, r2, r3, r4),
                rw (build_reading, e0, e1, e2, e3, e, f, e4) refl,
              )
              | inl (e4, r4) ↦ elim (member_cases p.voc_ohm) [
                | inr (e5, r5) ↦ inr (
                  ground (arith, r0, r1, r2, r3, r4, r5),
                  rw (build_reading, e0, e1, e2, e3, e, f, e4, e5) refl,
                )
                | inl (e5, r5) ↦ elim (member_cases p.mq135_ppm) [
                  | inr (e6, r6) ↦ inr (
                    ground (arith, r0, r1, r2, r3, r4, r5, r6),
                    rw (build_reading, e0, e1, e2, e3, e, f, e4, e5, e6) refl,
                  )
                  | inl (e6, r6) ↦ elim (member_cases p.pm1) [
                    | inr (e7, r7) ↦ inr (
                      ground (arith, r0, r1, r2, r3, r4, r5, r6, r7),
                      rw (build_reading, e0, e1, e2, e3, e, f, e4, e5, e6, e7) refl,
                    )
                    | inl (e7, r7) ↦ elim (member_cases p.battery_v) [
                      | inr (e8, r8) ↦ inr (
                        ground (arith, r0, r1, r2, r3, r4, r5, r6, r7, r8),
                        rw (build_reading, e0, e1, e2, e3, e, f, e4, e5, e6, e7, e8) refl,
                      )
                      | inl (e8, r8) ↦ inl (
                        ground (arith, r0, r1, r2, r3, r4, r5, r6, r7, r8),
                        (
                          score,
                          high,
                          rw (build_reading, e0, e1, e2, e3, e, f, e4, e5, e6, e7, e8) refl,
                        ),
                      )
                    ]
                  ]
                ]
              ]
            ]
          ]
        ]
      ]
    ]
