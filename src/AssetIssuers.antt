-- ===== src/AssetIssuers.antt =====
-- The verification of operations on assets, `AssetIssuerSignatureVerifier` of
-- backend/src/lib/asset-issuer.js.
pub mod Operations
pub mod Flights
