-- ===== src/Tests.antt =====
-- Tests, and the theorems applied at concrete inputs.
mod Software
mod Codec
mod Random
mod Scheme
mod Seek
mod Key
mod Util
mod Daemon
mod Reader
mod References
mod Modules
mod JournalPy
