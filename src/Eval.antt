-- ===== src/Eval.antt =====
-- internal/eval: the probes of a calibration.
pub mod Abstention
pub mod Agreement
