-- ===== src/Trustlines.antt =====
-- The trustline manager, backend/src/lib/trustline-manager.js: its error recovery, the verification
-- of trustline transactions, the rate limit violations and the queries.
pub mod Errors
pub mod Circuits
pub mod Recovery
pub mod Operations
pub mod Verifier
pub mod Manager
pub mod Queries
