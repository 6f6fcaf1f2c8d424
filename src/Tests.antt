-- ===== src/Tests.antt =====
-- Tests at concrete inputs: each claim's witness and a few runs of the definitions.
mod Monitor
mod Notes
mod Guards
mod Caches
mod Rates
mod Sessions
mod Locks
mod Writers
mod Records
mod Health
mod Validator
mod Retries
mod Trustlines
mod Verifier
mod Issuers
mod Relays
mod Slots
mod Reads
