-- ===== src/Net/Auth/Impersonation.antt =====
-- What the accepting side knows of the peer that it accepted. It looks the peer up by the name in
-- the greeting, and checks the signature under the key of the name in the response.
use flowkey.Base.{ℕ, String, true, ◌≡◌, refl, none, some, List, [], ◌∷◌, arith}
use flowkey.Base.Result.{ok}
use flowkey.Crypto.Session.{
  Primitives, SessionChallenge, SessionResponse, sign_response, verify_response,
}
use flowkey.Crypto.Session.Signing.{KeyPair, signed, verify_response-signed}
use flowkey.Net.Message.{
  Message, HelloPayload, AuthResultPayload, hello, auth_result, protocol_version,
}
use flowkey.Net.Auth.Steps.{Config, PeerConfig, Wire, AuthError, find_trusted}
use flowkey.Net.Auth.{
  identity_of, authenticated_as, new_challenge, authenticate_incoming_stream, response_message,
  challenge_message, accepted_message,
}

module _ (prim : Primitives) (describe : AuthError → String) (config : Config)
    (session_id nonce : String) where
  -- A connection that lets four writes pass.
  abbrev open_wire : List Message → Wire
  open_wire incoming = record { incoming = incoming; writable = 4; sent = [] }

  -- The peer of the greeting and the peer of the response may be two different ones.
  incoming_accepted :
      (a b : PeerConfig) (h : HelloPayload) (r own : SessionResponse) (c : SessionChallenge)
      (v : AuthResultPayload) (rest : List Message)
      → h.version ≡ protocol_version
      → find_trusted h.node_id config.peers ≡ some a
      → find_trusted r.responder_node_id config.peers ≡ some b
      → verify_response prim (new_challenge config session_id nonce) r (identity_of b) ≡ ok tt
      → sign_response prim c config.node.id config.node.private_key ≡ ok own
      → v.ok ≡ true
      → (authenticate_incoming_stream prim describe config session_id nonce
          (open_wire (hello h ∷ response_message r ∷ challenge_message c ∷ auth_result v ∷ rest))).1
        ≡ ok (authenticated_as a.id)
  unfolding authenticate_incoming_stream
  incoming_accepted a b h r own c v rest ver fa fb verified signs good = ground arith

  -- The response that a peer's own daemon makes to the challenge of this one, as itself.
  abbrev pub own_response : (b : PeerConfig) (key : List ℕ) → SessionResponse
  own_response b key = signed prim (new_challenge config session_id nonce) b.id key

  -- A trusted peer can pass for any other trusted peer on the side that accepts: when it greets
  -- with the other's name and signs the challenge with its own key under its own name, the
  -- connection is authenticated as the other's. All that is asked is that both are trusted, that
  -- this daemon can sign with its own key, and that the peer's key is the one in the
  -- configuration; the peer accepts this daemon's response.
  pub peer_passes_for_another :
      (a b : PeerConfig) (c : SessionChallenge) (own : SessionResponse) (private_key name : String)
      (pair : KeyPair prim private_key (identity_of b))
      → find_trusted a.id config.peers ≡ some a
      → find_trusted b.id config.peers ≡ some b
      → sign_response prim c config.node.id config.node.private_key ≡ ok own
      → (authenticate_incoming_stream prim describe config session_id nonce (
          open_wire (
            hello (record { version = protocol_version; node_id = a.id; node_name = name })
            ∷ response_message (own_response b pair.key)
            ∷ challenge_message c
            ∷ accepted_message a.id
            ∷ []))).1
        ≡ ok (authenticated_as a.id)
  peer_passes_for_another a b c own private_key name pair fa fb signs =
      incoming_accepted a b
        (record { version = protocol_version; node_id = a.id; node_name = name })
        (own_response b pair.key) own c (record { ok = true; peer_id = some a.id; error = none }) []
        refl fa fb
        (verify_response-signed prim (new_challenge config session_id nonce) private_key
          (identity_of b) pair)
        signs refl
