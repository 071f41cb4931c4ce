-- ===== src/Net/Auth/Steps.antt =====
-- The steps that both sides of the authentication are made of (crates/flowkey-net's connection.rs):
-- reads, writes and checks over a connection. The connection is what it does to the code: the
-- messages that are still to come and the number of writes that will still succeed.
use flowkey.Base.{
  ℕ, zero, suc, String, Bool, ◌&&◌, Option, none, some, List, [], ◌∷◌, ◌++◌, ◌==◌, String_eq,
  if◌then◌else◌,
}
use flowkey.Base.Result.{Result, ok, err}
use flowkey.Crypto.Session.{CryptoError, SessionChallenge, SessionResponse}
use flowkey.Net.Message.{
  Message, HelloPayload, hello, hello_ack, auth_challenge, auth_response, auth_result,
}

-- The parts of flowkey-config's `Config` that the authentication reads.
pub record NodeConfig : Type 0 where
  pub id : String
  pub name : String
  pub private_key : String

pub record PeerConfig : Type 0 where
  pub id : String
  pub name : String
  pub addr : String
  pub public_key : String
  pub trusted : Bool

pub record Config : Type 0 where
  pub node : NodeConfig
  pub peers : List PeerConfig

pub record ConnectionInfo : Type 0 where
  pub peer_id : String
  pub connected : Bool
  pub authenticated : Bool

pub record Wire : Type 0 where
  pub incoming : List Message
  pub writable : ℕ
  pub sent : List Message

pub data AuthError : Type 0 where
  read_failed write_failed version_mismatch wrong_peer not_trusted : AuthError
  unexpected : Message → AuthError
  rejected : String → AuthError
  crypto : CryptoError → AuthError

-- A step of the authentication: it uses the connection and may fail.
abbrev pub Auth : Type 0 → Type 0
Auth A = Wire → Wire × Result AuthError A

abbrev pub then_run :
    {A B : Type 0} → (A → Auth B) → Wire × Result AuthError A → Wire × Result AuthError B
then_run f (w, ok a) = f a w
then_run f (w, err e) = (w, err e)

infixl 5 ◌>>=◌ ◌>>◌
abbrev pub ◌>>=◌ : {A B : Type 0} → Auth A → (A → Auth B) → Auth B
◌>>=◌ m f w = then_run f (m w)

abbrev pub ◌>>◌ : {B : Type 0} → Auth (Unit {0}) → Auth B → Auth B
m >> k = m >>= λ _. k

abbrev pub return : {A : Type 0} → A → Auth A
return a w = (w, ok a)

abbrev pub fail : {A : Type 0} → AuthError → Auth A
fail e w = (w, err e)

abbrev pub guard : Bool → AuthError → Auth (Unit {0})
guard test e = if test then return tt else fail e

-- A result of the crypto crate, its error passed on.
abbrev pub lift : {A : Type 0} → Result CryptoError A → Auth A
lift (ok a) = return a
lift (err e) = fail (crypto e)

read_from : List Message → Wire → Wire × Result AuthError Message
read_from [] w = (w, err read_failed)
read_from (m ∷ ms) w = (record w { incoming = ms }, ok m)

unfoldable pub read_message : Auth Message
unfolding read_from
read_message w = read_from w.incoming w

write_to : ℕ → Message → Wire → Wire × Result AuthError (Unit {0})
write_to zero m w = (w, err write_failed)
write_to (suc n) m w = (record w { writable = n; sent = w.sent ++ m ∷ [] }, ok tt)

unfoldable pub write_message : Message → Auth (Unit {0})
unfolding write_to
write_message m w = write_to w.writable m w

-- The one message that is expected, or an error.
abbrev pub as_hello : Message → Auth HelloPayload
as_hello (hello p) = return p
as_hello other = fail (unexpected other)

abbrev pub as_hello_ack : Message → Auth HelloPayload
as_hello_ack (hello_ack p) = return p
as_hello_ack other = fail (unexpected other)

abbrev pub as_challenge : Message → Auth SessionChallenge
as_challenge (auth_challenge p) = return (record {
  session_id = p.session_id;
  challenger_node_id = p.challenger_node_id;
  nonce = p.nonce;
})
as_challenge other = fail (unexpected other)

abbrev pub as_response : Message → Auth SessionResponse
as_response (auth_response p) = return (record {
  session_id = p.session_id;
  responder_node_id = p.responder_node_id;
  signature = p.signature;
})
as_response other = fail (unexpected other)

abbrev unwrap_or_unknown : Option String → String
unwrap_or_unknown none = "unknown error"
unwrap_or_unknown (some e) = e

abbrev pub as_accepted : Message → Auth (Unit {0})
as_accepted (auth_result p) =
    if p.ok then return tt else fail (rejected (unwrap_or_unknown p.error))
as_accepted other = fail (unexpected other)

-- `peers.iter().find(id == peer_id && trusted)`.
unfoldable pub find_trusted : String → List PeerConfig → Option PeerConfig
find_trusted peer_id [] = none
find_trusted peer_id (p ∷ ps) =
    if p.id == peer_id && p.trusted then some p else find_trusted peer_id ps

unfoldable pub find_trusted_peer : Config → String → Auth PeerConfig
unfolding find_trusted
find_trusted_peer config peer_id = elim (find_trusted peer_id config.peers) [
  | none ↦ fail not_trusted
  | some p ↦ return p
]
