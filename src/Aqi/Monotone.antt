-- ===== src/Aqi/Monotone.antt =====
-- More pollution never lowers the index by more than the gaps between the bands do (tasks/aqi.py).
use native.Mathlib.Nat.{mul-le-mul_left, le-div_iff_mul-le, mul-div-le}
use empyrean_v2_backend.Base.{
  ℕ, zero, suc, ◌+◌, ◌-◌, ◌*◌, ◌/◌, ◌≤◌, ◌≡◌, inl, inr, arith, leb, List, [], ◌∷◌, Bool-cases,
  false,
}
use empyrean_v2_backend.Base.Int.{
  ℤ, pos, negsuc, pos_part, neg_part, ◌≤ℤ◌, clamp, sub_ℕ, shift_ℤ, scale_ℤ, floor_div,
}
use empyrean_v2_backend.Aqi.Bands.{Band, pm25_bands, pm10_bands, sub_band, interpolate, rate}

div_mono : (a b d : ℕ) → a ≤ b → a / d ≤ b / d
div_mono a b zero h = omega arith
div_mono a b (suc d) h =
    (le-div_iff_mul-le {k = suc d} (omega arith)).1 (omega (arith, mul-div-le a (suc d), h))

floor_div_mono : (a b : ℤ) (d : ℕ) → a ≤ℤ b → floor_div a d ≤ℤ floor_div b d
floor_div_mono (pos a) (pos b) d h = omega (arith, div_mono a b d (omega arith))
floor_div_mono (negsuc a) (pos b) d h = omega arith
floor_div_mono (pos a) (negsuc b) d h = omega arith
floor_div_mono (negsuc a) (negsuc b) d h = omega (arith, div_mono b a d (omega arith))

sub_ℕ-le : (a b c d : ℕ) → a + d ≤ c + b → sub_ℕ a b ≤ℤ sub_ℕ c d
sub_ℕ-le a b c d h = ground arith

sub_ℕ_parts : (a b : ℕ) → pos_part (sub_ℕ a b) + b ≡ neg_part (sub_ℕ a b) + a
sub_ℕ_parts a b = ground arith

scale_mono : (n x y lo : ℕ) → x ≤ y → scale_ℤ n (sub_ℕ x lo) ≤ℤ scale_ℤ n (sub_ℕ y lo)
scale_mono n x y lo h =
    sub_ℕ-le (n * pos_part (sub_ℕ x lo)) (n * neg_part (sub_ℕ x lo)) (n * pos_part (sub_ℕ y lo))
      (n * neg_part (sub_ℕ y lo))
      (omega (arith, mul-le-mul_left n (sub_ℕ-le x lo y lo (omega arith))))

shift_mono : (a b : ℤ) (n : ℕ) → a ≤ℤ b → shift_ℤ a n ≤ℤ shift_ℤ b n
shift_mono a b n h =
    sub_ℕ-le (pos_part a + n) (neg_part a) (pos_part b + n) (neg_part b) (omega arith)

interpolate_mono : (b : Band) (x y : ℕ) → x ≤ y → interpolate b x ≤ℤ interpolate b y
unfolding interpolate
interpolate_mono b x y h =
    shift_mono _ _ b.i_lo
      (floor_div_mono _ _ (b.c_hi - b.c_lo) (scale_mono (b.i_hi - b.i_lo) x y b.c_lo h))

≤ℤ_trans : (a b c : ℤ) → a ≤ℤ b → b ≤ℤ c → a ≤ℤ c
≤ℤ_trans a b c h k = omega arith

shift-ge : (a : ℤ) (n : ℕ) → a ≤ℤ shift_ℤ a n
shift-ge a n = ground arith

-- An index of a band, raised by `k`, is at least any earlier one that is raised so.
raise :
    (k : ℕ) (m : ℤ) (b : Band) (x y : ℕ)
    → x ≤ y
    → m ≤ℤ shift_ℤ (interpolate b x) k
    → m ≤ℤ shift_ℤ (interpolate b y) k
raise k m b x y h low =
    ≤ℤ_trans m (shift_ℤ (interpolate b x) k) (shift_ℤ (interpolate b y) k) low
      (shift_mono (interpolate b x) (interpolate b y) k (interpolate_mono b x y h))

-- The index `m` is at most `k` points above the index at `start` and at each later start of a band.
abbrev Low : ℕ → ℤ → ℕ → List Band → Band → Type 0
Low k m start [] top = m ≤ℤ shift_ℤ (interpolate top start) k
Low k m start (b ∷ bs) top = (m ≤ℤ shift_ℤ (interpolate b start) k) × Low k m (suc b.c_hi) bs top

Low-le :
    (k : ℕ) (m : ℤ) (start : ℕ) (bs : List Band) (top : Band) (y : ℕ)
    → start ≤ y
    → Low k m start bs top
    → m ≤ℤ shift_ℤ (interpolate (sub_band y bs top) y) k
unfolding sub_band
Low-le k m start [] top y h low = raise k m top start y h low
Low-le k m start (b ∷ bs) top y h low = elim (Bool-cases (leb y b.c_hi)) [
  | inl e ↦ rw e (raise k m b start y h low.0)
  | inr e ↦ rw e (Low-le k m (suc b.c_hi) bs top y (ground arith) low.1)
]

-- The end of each band is at most `k` points above the start of every later one.
abbrev Linked : ℕ → List Band → Band → Type 0
Linked k [] top = Unit
Linked k (b ∷ bs) top = Low k (interpolate b b.c_hi) (suc b.c_hi) bs top × Linked k bs top

index_mono :
    (k : ℕ) (bs : List Band) (top : Band) (x y : ℕ)
    → x ≤ y
    → Linked k bs top
    → interpolate (sub_band x bs top) x ≤ℤ shift_ℤ (interpolate (sub_band y bs top) y) k
unfolding sub_band
index_mono k [] top x y h links =
    raise k (interpolate top x) top x y h (shift-ge (interpolate top x) k)
index_mono k (b ∷ bs) top x y h links = elim (Bool-cases (leb x b.c_hi)) [
  | inl ex ↦ elim (Bool-cases (leb y b.c_hi)) [
    | inl ey ↦ rw (ex, ey) (raise k (interpolate b x) b x y h (shift-ge (interpolate b x) k))
    | inr ey ↦
        rw (ex, ey)
          (≤ℤ_trans (interpolate b x) (interpolate b b.c_hi)
            (shift_ℤ (interpolate (sub_band y bs top) y) k)
            (interpolate_mono b x b.c_hi (ground arith))
            (Low-le k (interpolate b b.c_hi) (suc b.c_hi) bs top y (ground arith) links.0))
  ]
  | inr ex ↦
      let ey : leb y b.c_hi ≡ false = ground arith in
      rw (ex, ey) (index_mono k bs top x y h links.1)
]

pm25_links : Linked 0 pm25_bands.lower pm25_bands.top
unfolding interpolate
pm25_links = omega arith

pm10_links : Linked 1 pm10_bands.lower pm10_bands.top
unfolding interpolate
pm10_links = omega arith

clamp_mono : (x y : ℤ) (hi : ℕ) → x ≤ℤ y → clamp x 0 hi ≤ clamp y 0 hi
clamp_mono x y hi h = ground arith

shift_zero-le : (a : ℤ) → shift_ℤ a 0 ≤ℤ a
shift_zero-le a = ground arith

-- A higher concentration never has a lower PM2.5 index, and never a PM10 index that is lower by more
-- than one point.
pub rate_mono :
    (x y : ℤ)
    → x ≤ℤ y
    → ((rate x pm25_bands).aqi ≤ℤ (rate y pm25_bands).aqi)
      × ((rate x pm10_bands).aqi ≤ℤ shift_ℤ (rate y pm10_bands).aqi 1)
unfolding rate
rate_mono x y h =
    let links = pm25_links in
    let low = clamp x 0 50040 in
    let high = clamp y 0 50040 in
    let a : ℤ = interpolate (sub_band low pm25_bands.lower pm25_bands.top) low in
    let b : ℤ = interpolate (sub_band high pm25_bands.lower pm25_bands.top) high in
    (
      ≤ℤ_trans a (shift_ℤ b 0) b
          (index_mono 0 pm25_bands.lower pm25_bands.top low high (clamp_mono x y 50040 h) links)
          (shift_zero-le b),
      index_mono 1 pm10_bands.lower pm10_bands.top (clamp x 0 60400) (clamp y 0 60400)
          (clamp_mono x y 60400 h) pm10_links,
    )
