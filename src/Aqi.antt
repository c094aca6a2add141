-- ===== src/Aqi.antt =====
-- tasks/aqi.py: EPA AQI from PM2.5 and PM10. Concentrations are hundredths of a µg/m³, so the
-- breakpoints are exact, and `math.floor` is taken of the exact quotient.
pub mod Bands
pub mod Index
pub mod Monotone
pub mod Composite
mod Tests
