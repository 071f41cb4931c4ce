-- ===== src/Process/Notes.antt =====
-- crates/flowkey-daemon/src/platform.rs: the diagnostic notes of the runtime.
use flowkey.Base.{
  ℕ, zero, suc, String, not, List, [], ◌∷◌, ◌++◌, any, length, drop, length-append, length-drop,
  ◌-◌, ◌≤◌, ltb, ◌==◌, ◌≡◌, true, arith, eq_iff, Bool, String_eq, if◌then◌else◌,
}
use flowkey.Core.Daemon.{DaemonRuntime}

-- `MAX_RUNTIME_NOTES`.
abbrev pub max_runtime_notes : ℕ
max_runtime_notes = 32

-- The oldest notes go once there are too many.
unfoldable pub capped : List String → List String
capped notes =
    if ltb max_runtime_notes (length notes)
    then drop (length notes - max_runtime_notes) notes
    else notes

unfoldable pub push_runtime_note : String → DaemonRuntime → DaemonRuntime
unfolding capped
push_runtime_note note r =
    let old = r.diagnostics.notes in
    let notes = if not (any (λ existing. existing == note) old) then old ++ note ∷ [] else old in
    record r { diagnostics = record r.diagnostics { notes = capped notes } }

abbrev pub has_note : String → List String → Bool
has_note note = any λ existing. existing == note

-- What is cut off the front of a list that ends in the note leaves the note.
has_note-drop :
    (note : String) (n : ℕ) (xs : List String)
    → n ≤ length xs
    → has_note note (drop n (xs ++ note ∷ [])) ≡ true
has_note-drop note zero [] h = ground (arith, eq_iff note note)
has_note-drop note (suc n) [] h = absurd (omega arith)
has_note-drop note zero (x ∷ xs) h = ground (arith, has_note-drop note zero xs)
has_note-drop note (suc n) (x ∷ xs) h = has_note-drop note n xs (omega arith)

-- A note that is pushed onto at most 32 notes is among the notes then, and they are again at most
-- 32. A note that was there already changes nothing.
pub push_runtime_note-bound :
    (note : String) (r : DaemonRuntime)
    → length r.diagnostics.notes ≤ max_runtime_notes
    → (length (push_runtime_note note r).diagnostics.notes ≤ max_runtime_notes)
      × (has_note note (push_runtime_note note r).diagnostics.notes ≡ true)
      × (has_note note r.diagnostics.notes ≡ true → push_runtime_note note r ≡ r)
unfolding push_runtime_note
push_runtime_note-bound note r h =
    let old = r.diagnostics.notes in
    let longer = old ++ note ∷ [] in
    ground (
      arith,
      has_note-drop note (length longer - max_runtime_notes) old,
      has_note-drop note 0 old,
      length-append old (note ∷ []),
      length-drop (length longer - max_runtime_notes) longer,
    )
