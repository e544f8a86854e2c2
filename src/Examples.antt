-- ===== src/Examples.antt =====
-- The theorems at concrete inputs, and the tests.
mod Data
mod Approvals
mod Runtime
mod Policy
mod Recommendations
mod Answers
mod Planning
mod Tools
mod Config
mod Sessions
