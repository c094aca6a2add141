-- ===== src/Forecast.antt =====
-- The forecasts (tasks/forecast.py, api/forecast.py).
pub mod Model
pub mod Predict
pub mod Route
pub mod Points
pub mod Writes
pub mod Coherence
mod Tests
