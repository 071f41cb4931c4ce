-- ===== src/Net/Message.antt =====
-- crates/flowkey-protocol/src/message.rs: what two daemons say to one another in a session.
use flowkey.Base.{ℕ, String, Bool, Option}
use flowkey.Input.Event.{InputEvent}

abbrev pub protocol_version : ℕ
protocol_version = 1

pub record HelloPayload : Type 0 where
  pub version : ℕ
  pub node_id : String
  pub node_name : String

pub record AuthChallengePayload : Type 0 where
  pub session_id : String
  pub challenger_node_id : String
  pub nonce : String

pub record AuthResponsePayload : Type 0 where
  pub session_id : String
  pub responder_node_id : String
  pub signature : String

pub record AuthResultPayload : Type 0 where
  pub ok : Bool
  pub peer_id : Option String
  pub error : Option String

pub data Message : Type 0 where
  hello hello_ack : HelloPayload → Message
  auth_challenge : AuthChallengePayload → Message
  auth_response : AuthResponsePayload → Message
  auth_result : AuthResultPayload → Message
  switch_request : String → String → Message
  switch_release : String → Message
  input_event : ℕ → InputEvent → Message
  heartbeat : Message
  error : ℕ → String → Message
