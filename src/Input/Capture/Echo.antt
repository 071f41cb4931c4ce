-- ===== src/Input/Capture/Echo.antt =====
-- What was injected is not captured again.
use flowkey.Base.{Option, none, ◌≡◌}
use flowkey.Input.Capture.{CaptureSignal, Listener}

module _ {F : Type 0} where
  -- The listener's signal is none, and its hotkeys are as they were.
  abbrev pub Ignored : Listener F → Listener F × Option CaptureSignal → Type 0
  Ignored l (q, signal) = (signal ≡ none) × (q.hotkeys ≡ l.hotkeys)
