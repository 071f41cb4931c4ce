-- ===== src/Net/Auth.antt =====
-- crates/flowkey-net/src/connection.rs: the mutual authentication of two daemons, on the side that
-- connects and on the side that accepts. The random texts of a fresh challenge are arguments, and
-- `describe` is how an error is printed.
pub mod Steps
pub mod Script
pub mod Impersonation
use flowkey.Base.{
  ℕ, zero, suc, String, Bool, true, false, not, ◌&&◌, Option, none, some, List, [], ◌∷◌, ◌++◌,
  nat_eq, ◌==◌, String_eq, if◌then◌else◌,
}
use flowkey.Base.Result.{Result, ok, err, ok_or}
use flowkey.Crypto.Session.{
  Primitives, CryptoError, NodeIdentity, SessionChallenge, SessionResponse, sign_response,
  verify_response,
}
use flowkey.Net.Message.{
  Message, HelloPayload, AuthChallengePayload, AuthResponsePayload, AuthResultPayload, hello,
  hello_ack, auth_challenge, auth_response, auth_result, protocol_version,
}
use flowkey.Net.Auth.Steps.{
  NodeConfig, PeerConfig, Config, ConnectionInfo, AuthError, version_mismatch, wrong_peer, Auth,
  then_run, ◌>>=◌, ◌>>◌, return, fail, guard, lift, read_message, write_message, as_hello,
  as_hello_ack, as_challenge, as_response, as_accepted, find_trusted_peer,
}

abbrev pub identity_of : PeerConfig → NodeIdentity
identity_of p = record {
  node_id = p.id;
  node_name = p.name;
  listen_addr = p.addr;
  public_key = p.public_key;
}

abbrev pub authenticated_as : String → ConnectionInfo
authenticated_as id = record { peer_id = id; connected = true; authenticated = true }

abbrev pub hello_of : Config → HelloPayload
hello_of config = record {
  version = protocol_version;
  node_id = config.node.id;
  node_name = config.node.name;
}

abbrev pub challenge_message : SessionChallenge → Message
challenge_message c = auth_challenge (record {
  session_id = c.session_id;
  challenger_node_id = c.challenger_node_id;
  nonce = c.nonce;
})

abbrev pub response_message : SessionResponse → Message
response_message r = auth_response (record {
  session_id = r.session_id;
  responder_node_id = r.responder_node_id;
  signature = r.signature;
})

abbrev pub accepted_message : String → Message
accepted_message id = auth_result (record { ok = true; peer_id = some id; error = none })

-- `SessionChallenge::new`, from two random texts.
abbrev pub new_challenge : Config → String → String → SessionChallenge
new_challenge config session_id nonce = record {
  session_id = session_id;
  challenger_node_id = config.node.id;
  nonce = nonce;
}

module _ (prim : Primitives) (describe : AuthError → String) (config : Config)
    (session_id nonce : String) where
  unfoldable pub connect_and_authenticate : PeerConfig → Auth ConnectionInfo
  unfolding read_message write_message
  connect_and_authenticate peer = do
    write_message (hello (hello_of config))
    ack ← read_message
    server_hello ← as_hello_ack ack
    guard (nat_eq server_hello.version protocol_version) version_mismatch
    guard (server_hello.node_id == peer.id) wrong_peer
    asked ← read_message
    challenge ← as_challenge asked
    response ← lift (sign_response prim challenge config.node.id config.node.private_key)
    write_message (response_message response)
    verdict ← read_message
    as_accepted verdict
    let server_challenge = new_challenge config session_id nonce
    write_message (challenge_message server_challenge)
    answer ← read_message
    server_response ← as_response answer
    lift (verify_response prim server_challenge server_response (identity_of peer))
    write_message (accepted_message peer.id)
    return (authenticated_as peer.id)

  unfoldable pub authenticate_trusted_peer :
      SessionChallenge → SessionResponse → Auth ConnectionInfo
  unfolding find_trusted_peer
  authenticate_trusted_peer challenge response = do
    peer ← find_trusted_peer config response.responder_node_id
    lift (verify_response prim challenge response (identity_of peer))
    return (authenticated_as peer.id)

  -- The verdict goes to the client; a refusal also ends the authentication.
  send_verdict : String → Result AuthError ConnectionInfo → Auth (Unit {0})
  unfolding write_message
  send_verdict peer_id (ok _) = write_message (accepted_message peer_id)
  send_verdict peer_id (err e) = do
    write_message (auth_result (record { ok = false; peer_id = none; error = some (describe e) }))
    fail e

  -- The outcome of a step as a value.
  catch : {A : Type 0} → Auth A → Auth (Result AuthError A)
  catch m w = let (w', r) = m w in (w', ok r)

  unfoldable pub authenticate_incoming_stream : Auth ConnectionInfo
  unfolding read_message write_message find_trusted_peer authenticate_trusted_peer send_verdict
      catch
  authenticate_incoming_stream = do
    greeting ← read_message
    client_hello ← as_hello greeting
    guard (nat_eq client_hello.version protocol_version) version_mismatch
    peer ← find_trusted_peer config client_hello.node_id
    write_message (hello_ack (hello_of config))
    let challenge = new_challenge config session_id nonce
    write_message (challenge_message challenge)
    answer ← read_message
    client_response ← as_response answer
    outcome ← catch (authenticate_trusted_peer challenge client_response)
    send_verdict peer.id outcome
    asked ← read_message
    server_challenge ← as_challenge asked
    server_response ←
        lift (sign_response prim server_challenge config.node.id config.node.private_key)
    write_message (response_message server_response)
    verdict ← read_message
    as_accepted verdict
    return (authenticated_as peer.id)
