-- ===== src/Net/Pairing.antt =====
-- crates/flowkey-net/src/pairing.rs: the exchange of identities that a pairing begins with. A
-- connection is the bytes that come, the number of calls that will still write, and what was written.
pub mod Frames
pub mod Agree
use flowkey.Base.{
  ℕ, zero, suc, ◌%◌, ◌^◌, String, Option, none, some, List, [], ◌++◌, length, ltb, if◌then◌else◌,
}
use flowkey.Base.Result.{Result, ok, err}
use flowkey.Net.Frame.{to_be_bytes, read_u32, read_exact, FrameError}
use flowkey.Net.Sas.{Sha3, generate_sas_code}

pub record PairingIdentity : Type 0 where
  pub id : String
  pub name : String
  pub public_key : String
  pub listen_addr : String

-- `A` is the type of socket addresses.
pub record PairingProposal (A : Type 0) : Type 0 where
  pub peer : PairingIdentity
  pub sas_code : List ℕ
  pub observed_addr : A

pub data PairingMessage : Type 0 where
  propose acknowledge : (node_id node_name public_key listen_addr : String) → PairingMessage
  accept reject : PairingMessage

-- bincode's encoding of a message, and its decoding.
pub record PairingCodec : Type 0 where
  pub serialize : PairingMessage → List ℕ
  pub deserialize : List ℕ → Option PairingMessage

pub data PairingError : Type 0 where
  write_failed read_failed too_large undecodable : PairingError
  unexpected : PairingMessage → PairingError

pub record Stream : Type 0 where
  pub incoming : List ℕ
  pub writable : ℕ
  pub sent : List ℕ

-- The node of the configuration, with the address that `advertised_listen_addr_for_pairing` finds.
pub record PairingConfig : Type 0 where
  pub id : String
  pub name : String
  pub public_key : String
  pub listen_addr : String
  pub advertised : Option String

-- A step on the connection, which may fail.
abbrev pub Step : Type 0 → Type 0
Step A = Stream → Stream × Result PairingError A

abbrev then_run :
    {A B : Type 0} → (A → Step B) → Stream × Result PairingError A → Stream × Result PairingError B
then_run f (s, ok a) = f a s
then_run f (s, err e) = (s, err e)

infixl 5 ◌>>=◌ ◌>>◌
abbrev ◌>>=◌ : {A B : Type 0} → Step A → (A → Step B) → Step B
◌>>=◌ m f s = then_run f (m s)

abbrev ◌>>◌ : {B : Type 0} → Step (Unit {0}) → Step B → Step B
m >> k = m >>= λ _. k

abbrev return : {A : Type 0} → A → Step A
return a s = (s, ok a)

abbrev fail : {A : Type 0} → PairingError → Step A
fail e s = (s, err e)

write_to : ℕ → List ℕ → Stream → Stream × Result PairingError (Unit {0})
write_to zero bytes s = (s, err write_failed)
write_to (suc n) bytes s = (record s { writable = n; sent = s.sent ++ bytes }, ok tt)

-- One call that writes; a flush writes nothing.
write_all : List ℕ → Step (Unit {0})
unfolding write_to
write_all bytes s = write_to s.writable bytes s

-- What a read of the frame's module takes from the stream.
abbrev taken :
    {A : Type 0} → Stream → Result FrameError (A × List ℕ) → Stream × Result PairingError A
taken s (ok (a, rest)) = (record s { incoming = rest }, ok a)
taken s (err e) = (s, err read_failed)

next_u32 : Step ℕ
unfolding read_u32
next_u32 s = taken s (read_u32 s.incoming)

next_bytes : ℕ → Step (List ℕ)
unfolding read_exact
next_bytes n s = taken s (read_exact n s.incoming)

abbrev decoded : Option PairingMessage → Step PairingMessage
decoded none = fail undecodable
decoded (some m) = return m

abbrev unwrap_or : Option String → String → String
unwrap_or none t = t
unwrap_or (some s) t = s

-- The address that is told to the peer.
abbrev told_addr : PairingConfig → String
told_addr config = unwrap_or config.advertised config.listen_addr

-- Who a node says that it is.
abbrev pub own_identity : PairingConfig → PairingIdentity
own_identity config = record {
  id = config.id;
  name = config.name;
  public_key = config.public_key;
  listen_addr = told_addr config;
}

abbrev pub proposal_of : PairingConfig → PairingMessage
proposal_of config = propose config.id config.name config.public_key (told_addr config)

abbrev pub acknowledgement_of : PairingConfig → PairingMessage
acknowledgement_of config = acknowledge config.id config.name config.public_key (told_addr config)

abbrev as_propose : PairingMessage → Step PairingIdentity
as_propose (propose i n k a) = return (record { id = i; name = n; public_key = k; listen_addr = a })
as_propose other = fail (unexpected other)

abbrev as_acknowledge : PairingMessage → Step PairingIdentity
as_acknowledge (acknowledge i n k a) =
    return (record { id = i; name = n; public_key = k; listen_addr = a })
as_acknowledge other = fail (unexpected other)

module _ (codec : PairingCodec) where
  unfoldable read_payload : ℕ → Step PairingMessage
  unfolding next_bytes
  read_payload len =
      if ltb 65536 len
      then fail too_large
      else (next_bytes len >>= λ buf. decoded (codec.deserialize buf))

  unfoldable read_pairing_message : Step PairingMessage
  unfolding next_u32 read_payload
  read_pairing_message = next_u32 >>= read_payload

  unfoldable write_pairing_message : PairingMessage → Step (Unit {0})
  unfolding write_all
  write_pairing_message m = do
    write_all (to_be_bytes (length (codec.serialize m) % 2 ^ 32))
    write_all (codec.serialize m)
    write_all []

module _ {A : Type 0} (codec : PairingCodec) (sha : Sha3) where
  proposal : PairingConfig → A → PairingIdentity → PairingProposal A
  unfolding generate_sas_code
  proposal config addr peer = record {
    peer = peer;
    sas_code = generate_sas_code sha config.public_key peer.public_key;
    observed_addr = addr;
  }

  -- The side that listens, on the connection that it accepted from `addr`.
  unfoldable pub accept_pairing_listener : PairingConfig → A → Step (PairingProposal A)
  unfolding read_pairing_message write_pairing_message proposal
  accept_pairing_listener config addr = do
    m ← read_pairing_message codec
    peer ← as_propose m
    write_pairing_message codec (acknowledgement_of config)
    return (proposal config addr peer)

  -- The side that connects to `peer_addr`.
  unfoldable pub initiate_pairing_client : PairingConfig → A → Step (PairingProposal A)
  unfolding read_pairing_message write_pairing_message proposal
  initiate_pairing_client config peer_addr = do
    write_pairing_message codec (proposal_of config)
    m ← read_pairing_message codec
    peer ← as_acknowledge m
    return (proposal config peer_addr peer)
