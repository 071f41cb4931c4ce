-- ===== src/Crypto/Session.antt =====
-- crates/flowkey-crypto/src/identity.rs and handshake.rs: keys, challenges and responses. A text of
-- bytes is a list of numbers.
pub mod Signing
use flowkey.Base.{
  ℕ, String, Bool, true, false, not, ◌≡◌, Option, none, some, List, [], ◌∷◌, ◌++◌, length, codes,
  nat_eq, ◌==◌, String_eq, if◌then◌else◌,
}
use flowkey.Base.Result.{Result, ok, err, ok_or, ◌>>=◌}

pub record Primitives : Type 0 where
  -- base64's STANDARD_NO_PAD and URL_SAFE_NO_PAD.
  pub decode_standard : String → Option (List ℕ)
  pub decode_url_safe : String → Option (List ℕ)
  pub encode_url_safe : List ℕ → String
  -- `serde_json::to_vec` of a tuple of four texts.
  pub to_json : String → String → String → String → List ℕ
  -- ed25519_dalek: the public half of a key, whether bytes are a public key, signing, and
  -- `verify_strict`.
  pub public_half : List ℕ → List ℕ
  pub is_public_key : List ℕ → Bool
  pub sign : List ℕ → List ℕ → List ℕ
  pub verify_strict : List ℕ → List ℕ → List ℕ → Bool
  pub decode-encode : (bytes : List ℕ) → decode_url_safe (encode_url_safe bytes) ≡ some bytes
  pub public_half-key : (key : List ℕ) → is_public_key (public_half key) ≡ true
  pub length-public_half : (key : List ℕ) → length (public_half key) ≡ 32
  pub length-sign : (key bytes : List ℕ) → length (sign key bytes) ≡ 64
  pub verify-sign :
      (key bytes : List ℕ) → verify_strict (public_half key) bytes (sign key bytes) ≡ true

pub data CryptoError : Type 0 where
  undecodable_key bad_key_length bad_key : CryptoError
  session_id_mismatch node_id_mismatch : CryptoError
  undecodable_signature bad_signature verification_failed : CryptoError

pub record NodeIdentity : Type 0 where
  pub node_id : String
  pub node_name : String
  pub listen_addr : String
  pub public_key : String

pub record SessionChallenge : Type 0 where
  pub session_id : String
  pub challenger_node_id : String
  pub nonce : String

pub record SessionResponse : Type 0 where
  pub session_id : String
  pub responder_node_id : String
  pub signature : String

module _ (prim : Primitives) where
  -- `try_into::<[u8; 32]>`.
  key_bytes : List ℕ → Result CryptoError (List ℕ)
  key_bytes bytes = if nat_eq (length bytes) 32 then ok bytes else err bad_key_length

  unfoldable pub signing_key_from_base64 : String → Result CryptoError (List ℕ)
  unfolding key_bytes
  signing_key_from_base64 encoded =
      ok_or (prim.decode_standard encoded) undecodable_key >>= key_bytes

  -- `VerifyingKey::from_bytes`.
  key_from_bytes : List ℕ → Result CryptoError (List ℕ)
  key_from_bytes bytes = if prim.is_public_key bytes then ok bytes else err bad_key

  unfoldable pub verifying_key : NodeIdentity → Result CryptoError (List ℕ)
  unfolding key_bytes key_from_bytes
  verifying_key node = do
    bytes ← ok_or (prim.decode_standard node.public_key) undecodable_key
    key ← key_bytes bytes
    key_from_bytes key

  unfoldable pub signing_payload_for_session : String → String → String → String → List ℕ
  signing_payload_for_session session_id challenger nonce responder =
      codes "flowkey-session-auth-v1" ++ b':' ∷ prim.to_json session_id challenger nonce responder

  -- `SessionChallenge::signing_bytes`.
  abbrev pub signing_bytes : SessionChallenge → String → List ℕ
  signing_bytes c responder =
      signing_payload_for_session c.session_id c.challenger_node_id c.nonce responder

  unfoldable pub sign_response :
      SessionChallenge → String → String → Result CryptoError SessionResponse
  unfolding signing_key_from_base64
  sign_response c responder encoded_private_key = do
    key ← signing_key_from_base64 encoded_private_key
    ok (record {
      session_id = c.session_id;
      responder_node_id = responder;
      signature = prim.encode_url_safe (prim.sign key (signing_bytes c responder));
    })

  -- `Signature::try_from`: 64 bytes.
  unfoldable pub signature_from_bytes : List ℕ → Result CryptoError (List ℕ)
  signature_from_bytes bytes = if nat_eq (length bytes) 64 then ok bytes else err bad_signature

  unfoldable pub check_signature : List ℕ → List ℕ → List ℕ → Result CryptoError (Unit {0})
  check_signature key bytes signature =
      if prim.verify_strict key bytes signature then ok tt else err verification_failed

  verify_signature :
      SessionChallenge → SessionResponse → NodeIdentity → Result CryptoError (Unit {0})
  unfolding verifying_key signature_from_bytes check_signature
  verify_signature c response peer = do
    key ← verifying_key peer
    bytes ← ok_or (prim.decode_url_safe response.signature) undecodable_signature
    signature ← signature_from_bytes bytes
    check_signature key (signing_bytes c response.responder_node_id) signature

  unfoldable pub verify_response :
      SessionChallenge → SessionResponse → NodeIdentity → Result CryptoError (Unit {0})
  unfolding verify_signature
  verify_response c response peer =
      if not (response.session_id == c.session_id)
      then err session_id_mismatch
      else if not (response.responder_node_id == peer.node_id)
      then err node_id_mismatch
      else verify_signature c response peer
