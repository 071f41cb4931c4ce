-- ===== src/Examples/Auth.antt =====
-- Three daemons with toy keys: the daemon "d" and its trusted peers "a" and "b". A key is 32 numbers,
-- the first of which counts, and a signature the sum of it and the length of what is signed.
use Prim.Native.Char.{code}
use flowkey.Base.{
  ℕ, zero, suc, ◌+◌, String, Bool, true, some, List, [], ◌∷◌, ◌++◌, ◌≡◌, refl, nat_eq, nat_eq_iff,
  length, codes, if◌then◌else◌,
}
use flowkey.Base.Result.{ok}
use flowkey.Crypto.Session.{
  Primitives, SessionChallenge, SessionResponse, signing_bytes, sign_response, verify_response,
  signing_key_from_base64, verifying_key, signing_payload_for_session,
}
use flowkey.Crypto.Session.Signing.{KeyPair, signed, verify_response-signed, verify_response_sound}
use flowkey.Net.Message.{hello, hello_ack, protocol_version}
use flowkey.Net.Auth.Steps.{
  Config, PeerConfig, Wire, AuthError, find_trusted, read_message, write_message,
}
use flowkey.Net.Auth.{
  identity_of, authenticated_as, new_challenge, challenge_message, response_message,
  accepted_message, connect_and_authenticate, authenticate_incoming_stream,
}
use flowkey.Net.Auth.Script.{
  ServerAnswers, ClientAnswers, connect-ServerAnswers, accept-ClientAnswers,
}
use flowkey.Net.Auth.Impersonation.{own_response, peer_passes_for_another}

abbrev first : List ℕ → ℕ
first [] = 0
first (n ∷ _) = n

abbrev zeros : ℕ → List ℕ
zeros zero = []
zeros (suc n) = 0 ∷ zeros n

abbrev pub seed : ℕ → List ℕ
seed n = n ∷ zeros 31

abbrev first_code : String → ℕ
first_code String.[] = 0
first_code (String.◌∷◌ c _) = code c

-- A number as that many a's and a b.
abbrev pub tally : ℕ → String → String
tally zero s = String.◌∷◌ "b" s
tally (suc n) s = String.◌∷◌ "a" (tally n s)

abbrev pub encode : List ℕ → String
encode [] = String.[]
encode (n ∷ ns) = tally n (encode ns)

abbrev count_up : List ℕ → List ℕ
count_up [] = []
count_up (n ∷ ns) = suc n ∷ ns

abbrev decode : String → List ℕ
decode String.[] = []
decode (String.◌∷◌ c s) =
    let rest = decode s in if nat_eq (code c) b'b' then 0 ∷ rest else count_up rest

decode-tally : (n : ℕ) (s : String) → decode (tally n s) ≡ n ∷ decode s
decode-tally zero s = refl
decode-tally (suc n) s = rw (decode-tally n s) refl

pub decode-encode : (ns : List ℕ) → decode (encode ns) ≡ ns
decode-encode [] = refl
decode-encode (n ∷ ns) = rw (decode-tally n (encode ns), decode-encode ns) refl

abbrev toy_sign : List ℕ → List ℕ → List ℕ
toy_sign key bytes = (first key + length bytes) ∷ zeros 63

abbrev toy_verify : List ℕ → List ℕ → List ℕ → Bool
toy_verify key bytes signature = nat_eq (first signature) (first key + length bytes)

abbrev pub toy : Primitives
toy = record {
  decode_standard = λ s. some (seed (first_code s));
  decode_url_safe = λ s. some (decode s);
  encode_url_safe = encode;
  to_json = λ a b c d. codes a ++ (codes b ++ (codes c ++ codes d));
  public_half = λ key. seed (first key);
  is_public_key = λ bytes. true;
  sign = toy_sign;
  verify_strict = toy_verify;
  decode-encode = λ bytes. rw (decode-encode bytes) refl;
  public_half-key = λ key. refl;
  length-public_half = λ key. refl;
  length-sign = λ key bytes. refl;
  verify-sign =
      λ key bytes. (nat_eq_iff (first key + length bytes) (first key + length bytes)).1 refl;
}

abbrev peer_a : PeerConfig
peer_a = record { id = "a"; name = "Anna"; addr = "a:1"; public_key = "1"; trusted = true }

abbrev pub peer_b : PeerConfig
peer_b = record { id = "b"; name = "Bert"; addr = "b:1"; public_key = "2"; trusted = true }

abbrev config_d : Config
config_d = record {
  node = record { id = "d"; name = "Dora"; private_key = "3" };
  peers = peer_a ∷ peer_b ∷ [];
}

-- The challenge of d, and one that d is asked.
abbrev asked_by_d : SessionChallenge
asked_by_d = new_challenge config_d "s" "n"

abbrev asked_of_d : SessionChallenge
asked_of_d = record { session_id = "t"; challenger_node_id = "a"; nonce = "m" }

abbrev print : AuthError → String
print _ = "refused"

abbrev pub pair_b : KeyPair toy "2" (identity_of peer_b)
pair_b = record {
  key = seed 50;
  private_decodes = refl;
  private_length = refl;
  public_decodes = refl;
}

abbrev pair_a : KeyPair toy "1" (identity_of peer_a)
pair_a = record {
  key = seed 49;
  private_decodes = refl;
  private_length = refl;
  public_decodes = refl;
}

abbrev response_b : SessionResponse
response_b = signed toy asked_by_d "b" (seed 50)

signs_b : sign_response toy asked_by_d "b" "2" ≡ ok response_b
unfolding sign_response signing_key_from_base64
signs_b = refl

signs_d : sign_response toy asked_of_d "d" "3" ≡ ok (signed toy asked_of_d "d" (seed 51))
unfolding sign_response signing_key_from_base64
signs_d = refl

verify_response_sound_example :
    (key : List ℕ) × (signature : List ℕ) × (response_b.session_id ≡ asked_by_d.session_id)
    × (response_b.responder_node_id ≡ peer_b.id)
    × (toy.decode_standard "2" ≡ some key)
    × (toy.decode_url_safe response_b.signature ≡ some signature)
    × (toy.verify_strict key (signing_bytes toy asked_by_d "b") signature ≡ true)
verify_response_sound_example =
    verify_response_sound toy asked_by_d response_b (identity_of peer_b)
      (verify_response-signed toy asked_by_d "2" (identity_of peer_b) pair_b)

-- What d reads from a peer that calls itself a and signs as b.
abbrev false_greeting : Wire
false_greeting = record {
  incoming =
      hello (record { version = protocol_version; node_id = "a"; node_name = "Anna" })
      ∷ response_message (own_response toy print config_d "s" "n" peer_b (seed 50))
      ∷ challenge_message asked_of_d
      ∷ accepted_message "a"
      ∷ [];
  writable = 4;
  sent = [];
}

a_found : find_trusted "a" config_d.peers ≡ some peer_a
unfolding find_trusted
a_found = refl

b_found : find_trusted "b" config_d.peers ≡ some peer_b
unfolding find_trusted
b_found = refl

peer_passes_for_another_example :
    (authenticate_incoming_stream toy print config_d "s" "n" false_greeting).1
    ≡ ok (authenticated_as "a")
peer_passes_for_another_example =
    peer_passes_for_another toy print config_d "s" "n" peer_a peer_b asked_of_d
      (signed toy asked_of_d "d" (seed 51)) "2" "Anna" pair_b a_found b_found signs_d

accept-ClientAnswers_example :
    ClientAnswers toy print config_d "s" "n" false_greeting.incoming (authenticated_as "a")
accept-ClientAnswers_example =
    accept-ClientAnswers toy print config_d "s" "n" false_greeting (authenticated_as "a") (
      peer_passes_for_another toy print config_d "s" "n" peer_a peer_b asked_of_d
        (signed toy asked_of_d "d" (seed 51)) "2" "Anna" pair_b a_found b_found signs_d)

-- What d reads from a when it connects.
abbrev from_a : Wire
from_a = record {
  incoming =
      hello_ack (record { version = protocol_version; node_id = "a"; node_name = "Anna" })
      ∷ challenge_message asked_of_d
      ∷ accepted_message "d"
      ∷ response_message (signed toy asked_by_d "a" (seed 49))
      ∷ [];
  writable = 4;
  sent = [];
}

a_connects :
    (connect_and_authenticate toy print config_d "s" "n" peer_a from_a).1
    ≡ ok (authenticated_as "a")
unfolding connect_and_authenticate read_message write_message sign_response signing_key_from_base64
    verify_response verifying_key signing_payload_for_session
a_connects = refl

connect-ServerAnswers_example :
    ServerAnswers toy print config_d "s" "n" peer_a from_a.incoming
    × (authenticated_as "a" ≡ authenticated_as "a")
connect-ServerAnswers_example =
    connect-ServerAnswers toy print config_d "s" "n" peer_a from_a (authenticated_as "a") a_connects
