-- ===== src/Crypto.antt =====
-- crates/flowkey-crypto: the keys of a node, the challenge that a session begins with (identity.rs,
-- and the session part of handshake.rs), and the offers of a pairing (the rest of handshake.rs). Base64, JSON and Ed25519 are third-party code:
-- the record `Primitives`, whose laws say that encoding is undone by decoding and that a signature
-- made with a key verifies under the key's public half.
pub mod Session
pub mod Pairing
