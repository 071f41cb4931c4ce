-- ===== src/Crypto/Session/Signing.antt =====
-- Responses against the challenges that they answer.
use flowkey.Base.{
  String, true, ◌≡◌, some, ℕ, List, length, arith, sym, subst, ◌∙◌, inl, inr, Option-cases,
  String_eq, eq_iff,
}
use flowkey.Base.Result.{ok, ok-injective}
use flowkey.Crypto.Session.{
  Primitives, NodeIdentity, SessionChallenge, SessionResponse, signing_bytes, sign_response,
  verify_response,
}

module _ (prim : Primitives) where
  -- The node's private key belongs to the public key that the identity names.
  pub record KeyPair (private_key : String) (node : NodeIdentity) : Type 0 where
    pub key : List ℕ
    pub private_decodes : prim.decode_standard private_key ≡ some key
    pub private_length : length key ≡ 32
    pub public_decodes : prim.decode_standard node.public_key ≡ some (prim.public_half key)

  -- The response that a key makes.
  abbrev pub signed : SessionChallenge → String → List ℕ → SessionResponse
  signed c responder key = record {
    session_id = c.session_id;
    responder_node_id = responder;
    signature = prim.encode_url_safe (prim.sign key (signing_bytes prim c responder));
  }

  sign_response-signed :
      (c : SessionChallenge) (private_key : String) (node : NodeIdentity)
      (pair : KeyPair private_key node)
      → sign_response prim c node.node_id private_key ≡ ok (signed c node.node_id pair.key)
  unfolding sign_response
  sign_response-signed c private_key node pair =
      ground (arith, pair.private_decodes, pair.private_length)

  pub verify_response-signed :
      (c : SessionChallenge) (private_key : String) (node : NodeIdentity)
      (pair : KeyPair private_key node)
      → verify_response prim c (signed c node.node_id pair.key) node ≡ ok tt
  unfolding verify_response
  verify_response-signed c private_key node pair = ground (
    arith,
    pair.public_decodes,
    prim.length-public_half pair.key,
    prim.public_half-key pair.key,
    prim.decode-encode (prim.sign pair.key (signing_bytes prim c node.node_id)),
    prim.length-sign pair.key (signing_bytes prim c node.node_id),
    prim.verify-sign pair.key (signing_bytes prim c node.node_id),
    eq_iff c.session_id c.session_id,
    eq_iff node.node_id node.node_id,
  )

  -- What a node signs with its key verifies under its identity.
  pub verify-sign_response :
      (c : SessionChallenge) (private_key : String) (node : NodeIdentity) (r : SessionResponse)
      → KeyPair private_key node
      → sign_response prim c node.node_id private_key ≡ ok r
      → verify_response prim c r node ≡ ok tt
  verify-sign_response c private_key node r pair h =
      subst (λ s. verify_response prim c s node ≡ ok tt)
        (ok-injective (sym (sign_response-signed c private_key node pair) ∙ h))
        (verify_response-signed c private_key node pair)

  -- A response that verifies carries the challenge's session and the peer's name, and its signature
  -- is one of that session, the challenger, its nonce and the peer under the peer's public key.
  pub verify_response_sound :
      (c : SessionChallenge) (r : SessionResponse) (peer : NodeIdentity)
      → verify_response prim c r peer ≡ ok tt
      → (key : List ℕ) × (signature : List ℕ) × (r.session_id ≡ c.session_id)
        × (r.responder_node_id ≡ peer.node_id)
        × (prim.decode_standard peer.public_key ≡ some key)
        × (prim.decode_url_safe r.signature ≡ some signature)
        × (prim.verify_strict key (signing_bytes prim c peer.node_id) signature ≡ true)
  unfolding verify_response
  verify_response_sound c r peer h = elim (Option-cases (prim.decode_standard peer.public_key)) [
    | inl e ↦ absurd (ground arith)
    | inr (key, e) ↦ elim (Option-cases (prim.decode_url_safe r.signature)) [
      | inl f ↦ absurd (ground arith)
      | inr (signature, f) ↦ (
        key,
        signature,
        ground (arith, eq_iff r.session_id c.session_id),
        ground (arith, eq_iff r.responder_node_id peer.node_id),
        e,
        f,
        ground (arith, eq_iff r.responder_node_id peer.node_id),
      )
    ]
  ]
