-- ===== src/Attention/Pipeline.antt =====
-- The verdict of the output process, and the pipeline from end to end.
pub mod Verdict
pub mod Whole
