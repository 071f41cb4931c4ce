-- ===== src/Process/Handover.antt =====
-- Who is told what when control goes to a peer by command, and what is left when it cannot.
use flowkey.Base.{
  ◌&&◌, String, Bool, true, false, not, Option, none, some, List, ◌≡◌, refl, sym, ap, ◌∙◌, arith,
  eq_iff, ◌==◌, String_eq, Bool_eq, Option-cases, inl, inr, if◌then◌else◌,
}
use flowkey.Base.Assoc.{lookup, lookup-insert}
use flowkey.Base.Result.{ok, err}
use flowkey.Core.Daemon.{DaemonRuntime, controlling, contains_key, active_must_be_authenticated}
use flowkey.Core.Daemon.Invariant.{Inv}
use flowkey.Core.Status.{from_runtime}
use flowkey.Net.Sender.Channel.{SendChannel}
use flowkey.Net.Sender.State.{Sender}
use flowkey.Process.State.{
  Daemon, is_controlling, with_sender, send_switch, send_releases, publish_status_snapshot,
  notify_peer_switch, notify_peer_release,
}
use flowkey.Process.Control.{switch, after_switch, handle_control_command}
use flowkey.Process.Switch.{let_go, previous_peer, switch_runtime-known, switch_runtime-unknown}

module _ {C : Type 0} where
  abbrev pub sent_to : (Sender C → Sender C) → Option (Sender C) → Option (Sender C)
  sent_to change none = none
  sent_to change (some s) = some (change s)

  pub lookup-with_sender :
      (asked peer : String) (change : Sender C → Sender C) (senders : List (String × Sender C))
      → lookup asked (with_sender peer change senders)
        ≡ (if peer == asked then sent_to change (lookup asked senders) else lookup asked senders)
  lookup-with_sender asked peer change senders = elim (Option-cases (lookup peer senders)) [
    | inl e ↦ ground (arith, eq_iff peer asked)
    | inr (s, e) ↦ ground (arith, lookup-insert peer asked (change s) senders, eq_iff peer asked)
  ]

-- Is this the peer that is left for another one?
abbrev pub is_left : Option String → String → String → Bool
is_left none peer asked = false
is_left (some previous) peer asked = previous == asked && not (previous == peer)

module _ {C : Type 0} (sort : List String → List String) (ch : SendChannel C) where
  after_switch-told :
      (peer asked a b : String) (previous : Option String) (r : DaemonRuntime) (d : Daemon C)
      → lookup asked (after_switch sort ch peer a b d (r, ok previous)).0.session_senders ≡ (
          if peer == asked
          then sent_to (send_switch ch b) (lookup asked d.session_senders)
          else if is_left previous peer asked
          then sent_to (send_releases ch a) (lookup asked d.session_senders)
          else lookup asked d.session_senders)
  unfolding after_switch publish_status_snapshot notify_peer_switch notify_peer_release
  after_switch-told peer asked a b none r d =
      ground (arith, lookup-with_sender asked peer (send_switch ch b) d.session_senders)
  after_switch-told peer asked a b (some previous) r d = ground (
    arith,
    lookup-with_sender asked peer (send_switch ch b) d.session_senders,
    lookup-with_sender asked peer (send_switch ch b)
        (with_sender previous (send_releases ch a) d.session_senders),
    lookup-with_sender asked previous (send_releases ch a) d.session_senders,
    eq_iff previous peer,
    eq_iff peer asked,
    eq_iff previous asked,
  )

  after_switch-state :
      (peer a b : String) (previous : Option String) (r : DaemonRuntime) (d : Daemon C)
      → is_controlling r.state ≡ true
      → let (q, result) = after_switch sort ch peer a b d (r, ok previous) in
        (result ≡ ok tt)
        × (q.runtime ≡ r)
        × (q.suppression_state ≡ true)
        × (q.status_snapshot ≡ from_runtime sort r)
  unfolding after_switch publish_status_snapshot notify_peer_switch notify_peer_release
  after_switch-state peer a b none r d h = ground arith
  after_switch-state peer a b (some previous) r d h = ground arith

  module _ (peer a b : String) (d : Daemon C) (v : Inv d.runtime) where
    -- A switch command to a peer with a session succeeds, if the runtime satisfies its invariant:
    -- the runtime controls the peer, which is the active one, local input is suppressed, and the
    -- published status is that of the new runtime. The peer's sender is told to switch, the sender
    -- of the peer that was in control or controlled, if it is another one, to release and to
    -- release all, and no other sender is told anything.
    pub switch_hands_over :
        contains_key peer d.runtime.sessions ≡ true
        → let (q, result) = handle_control_command sort ch (switch peer) a b d in
          (result ≡ ok tt)
          × (q.runtime ≡ record d.runtime { state = controlling peer; active_peer_id = some peer })
          × (q.suppression_state ≡ true)
          × (q.status_snapshot ≡ from_runtime sort q.runtime)
          × ((asked : String)
              → lookup asked q.session_senders ≡ (
                  if peer == asked
                  then sent_to (send_switch ch b) (lookup asked d.session_senders)
                  else if is_left (previous_peer d.runtime) peer asked
                  then sent_to (send_releases ch a) (lookup asked d.session_senders)
                  else lookup asked d.session_senders))
    unfolding handle_control_command
    switch_hands_over h =
        let r = record d.runtime { state = controlling peer; active_peer_id = some peer } in
        let (fine, runtime, flag, status) =
          after_switch-state peer a b (previous_peer d.runtime) r d refl in
        rw (switch_runtime-known peer d.runtime v h) (
          fine,
          runtime,
          flag,
          status ∙ ap (from_runtime sort) (sym runtime),
          λ asked. after_switch-told peer asked a b (previous_peer d.runtime) r d,
        )

    -- A switch command to a peer without a session fails. What it leaves is a runtime that has let
    -- go of the control it had, with the suppression of local input, the published status and every
    -- sender as before.
    pub failed_switch_strands :
        contains_key peer d.runtime.sessions ≡ false
        → handle_control_command sort ch (switch peer) a b d ≡ (
          record d { runtime = record d.runtime { state = let_go d.runtime.state } },
          err active_must_be_authenticated,
        )
    unfolding handle_control_command
    failed_switch_strands h =
        rw (switch_runtime-unknown peer d.runtime v h) (unfold after_switch in refl)
