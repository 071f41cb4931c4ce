-- ===== src/Net/Sender/Channel.antt =====
-- The commands of a session, and the bounded crossbeam channel that carries them, a parameter.
use flowkey.Base.{String, ◌≡◌, ◌≢◌, Bool, true, false, List, [], ◌∷◌, ◌++◌}
use flowkey.Input.Event.{InputEvent}

pub data SessionCommand : Type 0 where
  input : InputEvent → SessionCommand
  switch_control release_control : String → SessionCommand
  release_all : SessionCommand

-- What `try_send` reports: `TrySendError::Full`, and `Disconnected` as `hung_up`.
pub data TrySend : Type 0 where
  sent full hung_up : TrySend

-- The channel's operations, and what its documentation says: `accepted` is all that it ever took,
-- in order; a refused command is not among it. `send` waits for room, and fails only if the
-- receiver is gone.
pub record SendChannel (C : Type 0) : Type 0 where
  pub try_send : SessionCommand → C → C × TrySend
  pub send : SessionCommand → C → C × Bool
  pub accepted : C → List SessionCommand
  pub try_send-sent :
      (m : SessionCommand) (c : C)
      → (try_send m c).1 ≡ sent
      → accepted (try_send m c).0 ≡ accepted c ++ m ∷ []
  pub try_send-refused :
      (m : SessionCommand) (c : C)
      → (try_send m c).1 ≢ sent
      → accepted (try_send m c).0 ≡ accepted c
  pub send-sent :
      (m : SessionCommand) (c : C)
      → (send m c).1 ≡ true
      → accepted (send m c).0 ≡ accepted c ++ m ∷ []
  pub send-refused :
      (m : SessionCommand) (c : C) → (send m c).1 ≡ false → accepted (send m c).0 ≡ accepted c
