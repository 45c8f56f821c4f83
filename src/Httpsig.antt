-- ===== src/Httpsig.antt =====
-- internal/httpsig: HTTP Signatures (rsa-sha256) over a list of headers.
pub mod Request
pub mod Parse
pub mod Sign
pub mod Verify
mod Tests
mod Soundness
