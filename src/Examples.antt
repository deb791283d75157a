-- ===== src/Examples.antt =====
-- The theorems at concrete modules, and runs of the code on them.
pub mod Samples
mod BinaryRuns
mod AlickRuns
mod OptlirRuns
mod ArenaRuns
mod HashmapRuns
mod InternerRuns
mod ConstantsRuns
mod LexerRuns
mod LspRuns
