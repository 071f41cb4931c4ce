-- ===== src/Core/Recovery/Stale.antt =====
-- The masks of the releases that follow another.
use flowkey.Base.{String_eq, List}
use flowkey.Input.KeyCode.{KeyCode}
use flowkey.Base.Result.{Result}
