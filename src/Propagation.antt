-- ===== src/Propagation.antt =====
-- propagation/sgp4_engine.py and propagation/pass_detector.py: what is exact in them. The orbit, the
-- frames and the angles are computed in floats by packages outside the repository and by
-- propagation/coordinates.py, and enter as parameters.
pub mod Julian
pub mod SatCache
pub mod Engine
pub mod Samples
pub mod Detector
pub mod Site
