-- ===== src/Loop.antt =====
-- src/runtime/loop.py: the orchestrator.
pub mod Choice
pub mod ChoiceSound
pub mod Budget
pub mod Services
pub mod Emits
pub mod Attempt
pub mod Work
pub mod Verdicts
pub mod Run
pub mod Kept
pub mod KeptMoves
pub mod KeptVerdicts
pub mod KeptRun
pub mod Caps
pub mod Pinned
pub mod Closing
pub mod CommitMoves
pub mod Pack
pub mod PackFeedback
