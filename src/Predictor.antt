-- ===== src/Predictor.antt =====
-- src/predictor.h and src/predictor.cpp: measurement and prediction of kernel bursts.
pub mod Keeper
pub mod Survivors
pub mod Ages
pub mod Window
pub mod Period
pub mod Sentinels
