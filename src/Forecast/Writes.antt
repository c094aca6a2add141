-- ===== src/Forecast/Writes.antt =====
-- What the writes of tasks/forecast.py leave of the cached forecasts.
use empyrean_v2_backend.Base.{
  ℕ, ◌+◌, ◌==◌, ◌≡◌, refl, sym, subst, ◌∙◌, arith, List, [], ◌∷◌, ◌++◌, Option, some, All, inl, inr,
  ◌⊎◌, Bool-cases, Option-cases,
}
use empyrean_v2_backend.Access.Store.{
  Entry, live, set_entry, live-set_entry_self, live-set_entry_ne,
}
use empyrean_v2_backend.Pipeline.Enrich.{Reading}
use empyrean_v2_backend.Forecast.Model.{
  Model, Point, Stored, points, Cache, Regress, key_ttl, get_model, fit_model, training_points,
  cache_model, drop_legacy, retrain_node, retrain_model,
}
use empyrean_v2_backend.Forecast.Predict.{cache_forecast, model_for}

pub forecasts-cache_model :
    (now node : ℕ) (m : Model) (c : Cache) → (cache_model now node m c).forecasts ≡ c.forecasts
unfolding cache_model
forecasts-cache_model now node m c = elim (Bool-cases c.up) [
  | inl e ↦ rw (cache_model, e) refl
  | inr e ↦ rw (cache_model, e) refl
]

pub forecasts-drop_legacy : (node : ℕ) (c : Cache) → (drop_legacy node c).forecasts ≡ c.forecasts
unfolding drop_legacy
forecasts-drop_legacy node c = elim (Bool-cases c.up) [
  | inl e ↦ rw (drop_legacy, e) refl
  | inr e ↦ rw (drop_legacy, e) refl
]

pub forecasts-retrain_node :
    (regress : Regress) (now stamp : ℕ) (readings : List Reading) (node : ℕ) (c : Cache) (k : ℕ)
    → (retrain_node regress now stamp readings node (c, k)).0.forecasts ≡ c.forecasts
unfolding retrain_node
forecasts-retrain_node regress now stamp readings node c k =
    elim (Option-cases (fit_model regress stamp (training_points now node readings))) [
      | inl e ↦ rw (retrain_node, e) refl
      | inr (m, e) ↦
          rw (retrain_node, e)
            (forecasts-drop_legacy node (cache_model now node m c)
              ∙ forecasts-cache_model now node m c)
    ]

pub forecasts-retrain_model :
    (regress : Regress) (now stamp : ℕ) (readings : List Reading) (nodes : List ℕ) (s : Cache × ℕ)
    → (retrain_model regress now stamp readings nodes s).0.forecasts ≡ s.0.forecasts
unfolding retrain_model
forecasts-retrain_model regress now stamp readings [] s = refl
forecasts-retrain_model regress now stamp readings (node ∷ nodes) s =
    forecasts-retrain_model regress now stamp readings nodes
      (retrain_node regress now stamp readings node s)
    ∙ forecasts-retrain_node regress now stamp readings node s.0 s.1

pub forecasts-model_for :
    (fromisoformat : ℕ → Option ℕ) (regress : Regress) (now stamp : ℕ) (readings : List Reading)
    (node : ℕ) (c : Cache)
    → (model_for fromisoformat regress now stamp readings node c).1.forecasts ≡ c.forecasts
unfolding model_for
forecasts-model_for fromisoformat regress now stamp readings node c =
    elim (Option-cases (get_model fromisoformat now node c)) [
      | inr (m, e) ↦ rw (model_for, e) refl
      | inl e ↦ elim (Option-cases (fit_model regress stamp (training_points now node readings))) [
        | inl e' ↦ rw (model_for, e, e') refl
        | inr (m, e') ↦ rw (model_for, e, e') (forecasts-cache_model now node m c)
      ]
    ]

-- What a write leaves under a key: what was there, or the points that it wrote.
pub live-set_entry :
    (now until version v : ℕ) (ps qs : List Point) (es : List (Entry Stored))
    → live now v (set_entry version (points qs) until es) ≡ some (points ps)
    → ((version ≡ v) × (qs ≡ ps)) ⊎ (live now v es ≡ some (points ps))
live-set_entry now until version v ps qs es h = elim (Bool-cases (v == version)) [
  | inl e ↦
      let same : version ≡ v = ground (arith, e) in
      let there = live-set_entry_self now version (points qs) until es in
      let h' =
        subst (λ k. live now k (set_entry version (points qs) until es) ≡ some (points ps))
          (sym same) h in
      inl (same, ground (arith, there, h'))
  | inr e ↦ inr (sym (live-set_entry_ne now v version (points qs) until es (ground (arith, e))) ∙ h)
]

pub live-cache_forecast :
    (now later node n version v : ℕ) (ps qs : List Point) (c : Cache)
    → live later v ((cache_forecast now node version qs c).forecasts n) ≡ some (points ps)
    → ((version ≡ v) × (qs ≡ ps)) ⊎ (live later v (c.forecasts n) ≡ some (points ps))
unfolding cache_forecast
live-cache_forecast now later node n version v ps qs c h = elim (Bool-cases c.up) [
  | inr e ↦ inr (ground (arith, e, h))
  | inl e ↦ elim (Bool-cases (n == node)) [
    | inr e' ↦ inr (ground (arith, e, e', h))
    | inl e' ↦
        live-set_entry later (now + key_ttl) version v ps qs (c.forecasts n)
          (ground (arith, e, e', h))
  ]
]

pub All-split :
    {A : Type 0} (P : A → Type 0) (xs : List A) (y : A) (zs : List A)
    → All P (xs ++ (y ∷ zs))
    → P y × All P (xs ++ zs)
All-split P [] y zs h = h
All-split P (x ∷ xs) y zs h = let rest = All-split P xs y zs h.1 in (rest.0, (h.0, rest.1))
