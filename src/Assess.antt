-- ===== src/Assess.antt =====
-- The assessment suite in SP800-90B_EntropyAssessment, by its parts.
pub mod Permutation
pub mod Samples
pub mod Shuffle
pub mod Estimates
pub mod Matrix
pub mod Stats
pub mod Postfix
pub mod Arguments
pub mod Initial
pub mod Predict
pub mod Lag
pub mod MultiMcw
pub mod Zeros
pub mod Digest
pub mod Transpose
pub mod Minimum
pub mod Restart
