-- ===== src/Tests.antt =====
-- The theorems at concrete inputs, and runs of the model.
mod Belief
mod Rebuilds
mod Folding
mod Accounts
mod Asking
mod Uploads
mod Synthesis
mod Renaming
mod Signing
mod Updates
mod Limits
mod Jobs
mod Judging
mod Running
mod Histories
mod Summaries
mod Parsing
mod Reindexing
