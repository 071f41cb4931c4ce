-- ===== src/Net/Pairing/Agree.antt =====
-- The two sides of a pairing against each other.
use mathlib.Core.List.{append-nil}
use flowkey.Base.{ℕ, suc, ◌+◌, ◌≡◌, refl, sym, ap, ◌∙◌, List, [], ◌++◌, arith}
use flowkey.Base.Result.{Result, ok}
use flowkey.Net.Sas.{Sha3, generate_sas_code, generate_sas_code_comm}
use flowkey.Net.Pairing.{
  PairingCodec, PairingProposal, PairingConfig, Stream, own_identity, proposal_of,
  acknowledgement_of, read_pairing_message, write_pairing_message, accept_pairing_listener,
  initiate_pairing_client, proposal, ◌>>=◌, ◌>>◌, return, as_acknowledge, PairingError,
}
use flowkey.Net.Pairing.Frames.{
  then_run-sent, as_acknowledge-sent, Readable, frame, read-sent, read_frame, write_frame,
}

three : (n : ℕ) → 3 + n ≡ suc (suc (suc n))
three n = omega arith

module _ {A : Type 0} (codec : PairingCodec) (sha : Sha3) where
  -- What the user of `own` sees of `peer`, reached at `addr`.
  abbrev pub seen : PairingConfig → PairingConfig → A → PairingProposal A
  seen own peer addr = record {
    peer = own_identity peer;
    sas_code = generate_sas_code sha own.public_key peer.public_key;
    observed_addr = addr;
  }

  answered :
      (own peer : PairingConfig) (addr : A) (s : Stream) (left : ℕ)
      → Readable codec (acknowledgement_of own)
      → s.writable ≡ suc (suc (suc left))
      → (write_pairing_message codec (acknowledgement_of own)
            >> return (proposal codec sha own addr (own_identity peer)))
          s
        ≡ (
          record s { writable = left; sent = s.sent ++ frame codec (acknowledgement_of own) },
          ok (seen own peer addr),
        )
  unfolding proposal
  answered own peer addr s left a w =
      rw (write_frame codec (acknowledgement_of own) s left a w) refl

  accepted :
      (own peer : PairingConfig) (addr : A) (s : Stream) (left : ℕ)
      → Readable codec (proposal_of peer)
      → Readable codec (acknowledgement_of own)
      → s.incoming ≡ frame codec (proposal_of peer)
      → s.writable ≡ suc (suc (suc left))
      → accept_pairing_listener codec sha own addr s ≡ (
        record {
          incoming = [];
          writable = left;
          sent = s.sent ++ frame codec (acknowledgement_of own);
        },
        ok (seen own peer addr),
      )
  unfolding accept_pairing_listener
  accepted own peer addr s left p a h w =
      rw
        (read_frame codec (proposal_of peer) s [] p
          (h ∙ sym (append-nil (frame codec (proposal_of peer)))))
        (answered own peer addr (record s { incoming = [] }) left a w)

  initiated :
      (own peer : PairingConfig) (addr : A) (s : Stream) (left : ℕ)
      → Readable codec (proposal_of own)
      → Readable codec (acknowledgement_of peer)
      → s.incoming ≡ frame codec (acknowledgement_of peer)
      → s.writable ≡ suc (suc (suc left))
      → initiate_pairing_client codec sha own addr s ≡ (
        record { incoming = []; writable = left; sent = s.sent ++ frame codec (proposal_of own) },
        ok (seen own peer addr),
      )
  unfolding initiate_pairing_client
  initiated own peer addr s left p a h w =
      rw
        (
          write_frame codec (proposal_of own) s left p w,
          read_frame codec (acknowledgement_of peer)
              (record s { writable = left; sent = s.sent ++ frame codec (proposal_of own) }) [] a
              (h ∙ sym (append-nil (frame codec (acknowledgement_of peer)))),
        )
        refl

  -- The client writes its proposal whatever it reads.
  initiate-sent :
      (own : PairingConfig) (addr : A) (s : Stream) (left : ℕ)
      → Readable codec (proposal_of own)
      → s.writable ≡ suc (suc (suc left))
      → (initiate_pairing_client codec sha own addr s).0.sent
        ≡ s.sent ++ frame codec (proposal_of own)
  unfolding initiate_pairing_client
  initiate-sent own addr s left p w =
      let written = record s { writable = left; sent = s.sent ++ frame codec (proposal_of own) } in
      rw (write_frame codec (proposal_of own) s left p w) (
        then_run-sent (λ m. as_acknowledge m >>= λ peer. return (proposal codec sha own addr peer))
          (read_pairing_message codec written)
          (λ m t.
            then_run-sent (λ peer. return (proposal codec sha own addr peer)) (as_acknowledge m t)
              (λ peer u. refl)
            ∙ as_acknowledge-sent m t)
        ∙ read-sent codec written)

  same_code :
      (client listener : PairingConfig) (addr : A)
      → ◌≡◌ {A = Result PairingError (PairingProposal A)} (ok (seen listener client addr)) (
          ok (record {
            peer = own_identity client;
            sas_code = generate_sas_code sha client.public_key listener.public_key;
            observed_addr = addr;
          }))
  same_code client listener addr =
      rw (generate_sas_code_comm sha listener.public_key client.public_key) refl

  -- When a client and a listener (each of whose connections takes three writes or more, and has
  -- nothing written yet) read what the other writes, and each message is at most 65536 bytes that
  -- decode to it, both succeed with the other's identity and the same code.
  pub pairing_agrees :
      (client listener : PairingConfig) (client_addr listener_addr : A)
      (at_client at_listener : Stream) (client_left listener_left : ℕ)
      → Readable codec (proposal_of client)
      → Readable codec (acknowledgement_of listener)
      → at_client.writable ≡ 3 + client_left
      → at_listener.writable ≡ 3 + listener_left
      → at_client.sent ≡ []
      → at_listener.sent ≡ []
      → at_listener.incoming
        ≡ (initiate_pairing_client codec sha client listener_addr at_client).0.sent
      → at_client.incoming
        ≡ (accept_pairing_listener codec sha listener client_addr at_listener).0.sent
      → (code : List ℕ) × ((initiate_pairing_client codec sha client listener_addr at_client).1
          ≡ ok (record {
            peer = own_identity listener;
            sas_code = code;
            observed_addr = listener_addr;
          }))
        × ((accept_pairing_listener codec sha listener client_addr at_listener).1
            ≡ ok (record {
              peer = own_identity client;
              sas_code = code;
              observed_addr = client_addr;
            }))
  pairing_agrees client listener ca la c l c_left l_left p a wc wl sc sl to_listener to_client =
      let heard =
        to_listener
        ∙ initiate-sent client la c c_left p (wc ∙ three c_left)
        ∙ ap (λ bytes. bytes ++ frame codec (proposal_of client)) sc in
      let there = accepted listener client ca l l_left p a heard (wl ∙ three l_left) in
      let acknowledged =
        to_client
        ∙ ap (λ x. x.0.sent) there
        ∙ ap (λ bytes. bytes ++ frame codec (acknowledgement_of listener)) sl in
      (
        generate_sas_code sha client.public_key listener.public_key,
        ap (λ x. x.1) (initiated client listener la c c_left p a acknowledged (wc ∙ three c_left)),
        ap (λ x. x.1) there ∙ same_code client listener ca,
      )
