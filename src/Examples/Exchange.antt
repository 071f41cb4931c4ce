-- ===== src/Examples/Exchange.antt =====
-- A pairing of the node "c", which connects, with the node "l", which listens, over a codec of two
-- messages.
use flowkey.Base.{
  ℕ, String, Option, none, some, List, [], ◌∷◌, ◌++◌, ◌≡◌, refl, codes, arith, nat_eq,
  if◌then◌else◌,
}
use flowkey.Base.Result.{ok}
use flowkey.Net.Frame.{to_be_bytes, read_u32, read_exact}
use flowkey.Net.Sas.{Sha3}
use flowkey.Net.Pairing.{
  PairingMessage, PairingCodec, PairingConfig, Stream, propose, acknowledge, accept, reject,
  own_identity, proposal_of, acknowledgement_of, initiate_pairing_client, accept_pairing_listener,
}
use flowkey.Net.Pairing.Frames.{Readable, frame}
use flowkey.Net.Pairing.Agree.{pairing_agrees}

abbrev connecting : PairingConfig
connecting = record {
  id = "c";
  name = "Cleo";
  public_key = "k2";
  listen_addr = "c:1";
  advertised = some "d:1";
}

abbrev listening : PairingConfig
listening = record {
  id = "l";
  name = "Lena";
  public_key = "k1";
  listen_addr = "l:1";
  advertised = none;
}

abbrev encoded : PairingMessage → List ℕ
encoded (propose i n k a) = 1 ∷ codes k
encoded (acknowledge i n k a) = 2 ∷ codes k
encoded accept = 3 ∷ []
encoded reject = 4 ∷ []

abbrev message_of : List ℕ → Option PairingMessage
message_of (n ∷ _) =
    if nat_eq n 1
    then some (proposal_of connecting)
    else if nat_eq n 2
    then some (acknowledgement_of listening)
    else none
message_of [] = none

-- The socket addresses that each side sees of the other.
abbrev addr_of_l : String
addr_of_l = "l:1"

abbrev addr_of_c : String
addr_of_c = "c:9"

abbrev two_messages : PairingCodec
two_messages = record { serialize = encoded; deserialize = message_of }

-- The codes of both texts in the place of their hash.
abbrev plain : Sha3
plain = record { digest = λ a b. codes a ++ codes b }

abbrev stream_c : Stream
stream_c = record {
  incoming = frame two_messages (acknowledgement_of listening);
  writable = 3;
  sent = [];
}

abbrev stream_l : Stream
stream_l = record {
  incoming = frame two_messages (proposal_of connecting);
  writable = 4;
  sent = [];
}

proposal_of-Readable : Readable two_messages (proposal_of connecting)
proposal_of-Readable = record { back = refl; short = omega arith }

acknowledgement_of-Readable : Readable two_messages (acknowledgement_of listening)
acknowledgement_of-Readable = record { back = refl; short = omega arith }

c_writes :
    stream_l.incoming
    ≡ (initiate_pairing_client two_messages plain connecting addr_of_l stream_c).0.sent
unfolding initiate_pairing_client to_be_bytes read_u32 read_exact
c_writes = refl

l_writes :
    stream_c.incoming
    ≡ (accept_pairing_listener two_messages plain listening addr_of_c stream_l).0.sent
unfolding accept_pairing_listener to_be_bytes read_u32 read_exact
l_writes = refl

pairing_agrees_example :
    (code : List ℕ) × ((initiate_pairing_client two_messages plain connecting addr_of_l stream_c).1
      ≡ ok (record { peer = own_identity listening; sas_code = code; observed_addr = addr_of_l }))
    × ((accept_pairing_listener two_messages plain listening addr_of_c stream_l).1
        ≡ ok
            (record { peer = own_identity connecting; sas_code = code; observed_addr = addr_of_c }))
pairing_agrees_example =
    pairing_agrees two_messages plain connecting listening addr_of_c addr_of_l stream_c stream_l 0 1
      proposal_of-Readable acknowledgement_of-Readable refl refl refl refl c_writes l_writes
