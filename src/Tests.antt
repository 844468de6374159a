-- ===== src/Tests.antt =====
-- The theorems at concrete inputs, and runs of the definitions.
mod Names
mod Runs
mod Watches
mod Origins
mod Reports
mod Programs
mod Files
mod Cxx
mod Traces
mod Messages
mod Logs
mod Contexts
mod Lists
