-- ===== src/Tests.antt =====
-- Runs at concrete inputs: the theorems applied to requests, contexts, errors and handlers.
mod Samples
mod Basics
mod Access
mod Tokens
mod Writers
mod Timeouts
mod Logs
mod Setup
mod Limits
mod Windows
mod Service
mod Denials
mod Cors
