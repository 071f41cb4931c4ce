-- ===== src/Net/Auth/Script.antt =====
-- What each side of the authentication must have read to succeed.
use flowkey.Base.{
  ℕ, zero, suc, String, true, ◌≡◌, some, List, [], ◌∷◌, arith, eq_iff, inl, inr, Option-cases,
}
use flowkey.Base.Result.{ok}
use flowkey.Crypto.Session.{Primitives, SessionResponse, verify_response}
use flowkey.Net.Message.{
  Message, HelloPayload, AuthChallengePayload, AuthResponsePayload, AuthResultPayload, hello,
  hello_ack, auth_challenge, auth_response, auth_result, protocol_version,
}
use flowkey.Net.Auth.Steps.{Config, PeerConfig, ConnectionInfo, Wire, AuthError, find_trusted}
use flowkey.Net.Auth.{
  identity_of, authenticated_as, new_challenge, connect_and_authenticate,
  authenticate_incoming_stream,
}

abbrev response_of : AuthResponsePayload → SessionResponse
response_of p = record {
  session_id = p.session_id;
  responder_node_id = p.responder_node_id;
  signature = p.signature;
}

module _ (prim : Primitives) (describe : AuthError → String) (config : Config)
    (session_id nonce : String) where
  -- The server's side of the exchange, as the connecting side reads it.
  abbrev pub ServerAnswers : PeerConfig → List Message → Type 0
  ServerAnswers peer (hello_ack h ∷ auth_challenge c ∷ auth_result v ∷ auth_response r ∷ rest) =
      (h.version ≡ protocol_version)
      × (h.node_id ≡ peer.id)
      × (v.ok ≡ true)
      × (verify_response prim (new_challenge config session_id nonce) (response_of r)
            (identity_of peer)
          ≡ ok tt)
  ServerAnswers peer _ = ⊥

  script_read :
      (peer : PeerConfig) (ms : List Message) (n : ℕ) (sent : List Message) (info : ConnectionInfo)
      → (connect_and_authenticate prim describe config session_id nonce peer
          (record { incoming = ms; writable = n; sent = sent })).1
        ≡ ok info
      → ServerAnswers peer ms × (info ≡ authenticated_as peer.id)
  unfolding connect_and_authenticate
  script_read peer ms zero sent info h = cc
  script_read peer [] (suc n) sent info h = cc
  script_read peer (hello_ack a ∷ []) (suc n) sent info h = absurd (ground arith)
  script_read peer (hello_ack a ∷ auth_challenge c ∷ []) (suc n) sent info h = absurd (ground arith)
  script_read peer (hello_ack a ∷ auth_challenge c ∷ auth_result v ∷ []) (suc n) sent info h =
      absurd (ground arith)
  script_read peer (hello_ack a ∷ auth_challenge c ∷ auth_result v ∷ auth_response r ∷ rest) (suc n)
        sent info h =
      ground (arith, eq_iff a.node_id peer.id)
  script_read peer (hello_ack a ∷ auth_challenge c ∷ auth_result v ∷ _ ∷ rest) (suc n) sent info h =
      absurd (ground arith)
  script_read peer (hello_ack a ∷ auth_challenge c ∷ _ ∷ rest) (suc n) sent info h =
      absurd (ground arith)
  script_read peer (hello_ack a ∷ _ ∷ rest) (suc n) sent info h = absurd (ground arith)
  script_read peer (_ ∷ rest) (suc n) sent info h = cc

  -- The connecting side succeeds only if it read, in this order, the greeting of a daemon that
  -- speaks the protocol's version under the name of the configured peer, a challenge, a verdict that
  -- accepts it, and a response to its own fresh challenge that verifies under the configured key of
  -- that peer; what it then reports is that peer.
  pub connect-ServerAnswers :
      (peer : PeerConfig) (w : Wire) (info : ConnectionInfo)
      → (connect_and_authenticate prim describe config session_id nonce peer w).1 ≡ ok info
      → ServerAnswers peer w.incoming × (info ≡ authenticated_as peer.id)
  connect-ServerAnswers peer w info h = script_read peer w.incoming w.writable w.sent info h

  -- The client's side of the exchange, as the accepting side reads it: it is looked up by the name
  -- in its greeting, and its response verifies under the key of the peer that the response names.
  abbrev pub ClientAnswers : List Message → ConnectionInfo → Type 0
  ClientAnswers (hello h ∷ auth_response r ∷ auth_challenge c ∷ auth_result v ∷ rest) info =
      (greeter : PeerConfig) × (signer : PeerConfig) × (h.version ≡ protocol_version)
      × (find_trusted h.node_id config.peers ≡ some greeter)
      × (find_trusted r.responder_node_id config.peers ≡ some signer)
      × (verify_response prim (new_challenge config session_id nonce) (response_of r)
            (identity_of signer)
          ≡ ok tt)
      × (v.ok ≡ true)
      × (info ≡ authenticated_as greeter.id)
  ClientAnswers _ info = ⊥

  all_read :
      (h : HelloPayload) (r : AuthResponsePayload) (c : AuthChallengePayload)
      (v : AuthResultPayload) (rest : List Message) (n : ℕ) (sent : List Message)
      (info : ConnectionInfo)
      → (authenticate_incoming_stream prim describe config session_id nonce (record {
        incoming = hello h ∷ auth_response r ∷ auth_challenge c ∷ auth_result v ∷ rest;
        writable = n;
        sent = sent;
      })).1
        ≡ ok info
      → ClientAnswers (hello h ∷ auth_response r ∷ auth_challenge c ∷ auth_result v ∷ rest) info
  unfolding authenticate_incoming_stream
  all_read h r c v rest n sent info e = elim (Option-cases (find_trusted h.node_id config.peers)) [
    | inl f ↦ absurd (ground arith)
    | inr (greeter, f) ↦ elim (Option-cases (find_trusted r.responder_node_id config.peers)) [
      | inl g ↦ absurd (ground arith)
      | inr (signer, g) ↦
          (greeter, signer, ground arith, f, g, ground arith, ground arith, ground arith)
    ]
  ]

  client_read :
      (ms : List Message) (n : ℕ) (sent : List Message) (info : ConnectionInfo)
      → (authenticate_incoming_stream prim describe config session_id nonce
          (record { incoming = ms; writable = n; sent = sent })).1
        ≡ ok info
      → ClientAnswers ms info
  client_read (hello h ∷ auth_response r ∷ auth_challenge c ∷ auth_result v ∷ rest) n sent info e =
      all_read h r c v rest n sent info e
  client_read (hello h ∷ auth_response r ∷ auth_challenge c ∷ rest) n sent info e =
      absurd (unfold authenticate_incoming_stream in ground arith)
  client_read (hello h ∷ auth_response r ∷ rest) n sent info e =
      absurd (unfold authenticate_incoming_stream in ground arith)
  client_read (hello h ∷ rest) n sent info e =
      absurd (unfold authenticate_incoming_stream in ground arith)
  client_read _ n sent info e = absurd (unfold authenticate_incoming_stream in ground arith)

  -- The accepting side succeeds only if it read, in this order, the greeting of a trusted peer that
  -- speaks the protocol's version, a response that some trusted peer signed for the fresh challenge,
  -- a challenge, and a verdict that accepts; what it then reports is the peer of the greeting.
  pub accept-ClientAnswers :
      (w : Wire) (info : ConnectionInfo)
      → (authenticate_incoming_stream prim describe config session_id nonce w).1 ≡ ok info
      → ClientAnswers w.incoming info
  accept-ClientAnswers w info h = client_read w.incoming w.writable w.sent info h
