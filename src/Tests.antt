-- ===== src/Tests.antt =====
-- Tests of the definitions on concrete inputs, and the theorems at inputs that meet their hypotheses.
mod Auth
mod Send
mod Push
mod Plan
mod Retry
mod Transfer
mod Cli
mod Registry
mod Format
mod Follow
mod Pull
