-- ===== src/ControlMode/Line.antt =====
-- `decodeLine`, `commandFields`, `decodeOutput` and `knownNotification` of
-- internal/controlmode/decoder.go: one record of the stream, without its newline. `none` stands for
-- ErrDecoderFailed.
pub mod Commands
pub mod Outputs
use Prim.Native.String.{String}
use persea_terminal.Base.{
  ℕ, ◌+◌, Bool, true, false, ◌&&◌, ◌||◌, Option, none, some, List, [], ◌∷◌, ◌++◌, ltb, ◌==◌,
  if◌then◌else◌, ◌>>=◌, length, take, drop,
}
use persea_terminal.ControlMode.Bytes.{
  codes, bytes_equal, has_prefix, index_byte, index_of, parse_uint64, fields_from,
}
use persea_terminal.ControlMode.Payload.{decode_payload}

pub data EventKind : Type 0 where
  output extended_output pause continue notification : EventKind
  command_begin command_response command_end command_error : EventKind

pub record Event : Type 0 where
  pub kind : EventKind
  pub pane_id : List ℕ
  pub age : ℕ
  pub payload : List ℕ
  pub name : List ℕ
  pub args : List ℕ

-- An event with only its kind set.
abbrev pub bare : EventKind → Event
bare kind = record { kind = kind; pane_id = []; age = 0; payload = []; name = []; args = [] }

pub record CommandWitness : Type 0 where
  pub time : List ℕ
  pub number : List ℕ
  pub flags : List ℕ

-- The line up to its first space, which may not be its first byte, and what follows the space.
unfoldable pub cut_space : List ℕ → Option (List ℕ × List ℕ)
cut_space s = elim (index_byte s 32) [
  | none ↦ none
  | some i ↦ if i == 0 then none else some (take i s, drop (i + 1) s)
]

-- The fields behind the age of an extended record, up to the colon.
unfoldable pub skip_reserved : List ℕ → Option (List ℕ)
skip_reserved s =
    if has_prefix s (codes ": ")
    then some (drop 2 s)
    else (elim (index_of s (codes " : ")) [ none ↦ none | some colon ↦ some (drop (colon + 3) s) ])

unfoldable pub decode_output : List ℕ → Bool → Option Event
decode_output line false = do
  (pane, rest) ← cut_space (drop (length (codes "%output ")) line)
  payload ← decode_payload rest
  some (record (bare output) { pane_id = pane; payload = payload })
decode_output line true = do
  (pane, rest) ← cut_space (drop (length (codes "%extended-output ")) line)
  (digits, rest') ← cut_space rest
  age ← parse_uint64 digits
  encoded ← skip_reserved rest'
  payload ← decode_payload encoded
  some (record (bare extended_output) { pane_id = pane; age = age; payload = payload })

-- No more than four fields, or none at all.
unfoldable pub command_fields : List ℕ → List (List ℕ)
command_fields line =
    let fields = fields_from 0 [] line in if ltb 4 (length fields) then [] else fields

abbrev pub any_equal : List ℕ → List String → Bool
any_equal name [] = false
any_equal name (known ∷ names) = bytes_equal name (codes known) || any_equal name names

unfoldable pub known_notification : List ℕ → Bool
known_notification name = any_equal name (
    "client-detached" ∷ "client-session-changed" ∷ "config-error" ∷ "continue" ∷ "exit"
    ∷ "layout-change" ∷ "message" ∷ "pane-mode-changed" ∷ "paste-buffer-changed"
    ∷ "paste-buffer-deleted" ∷ "pause" ∷ "session-changed" ∷ "session-renamed"
    ∷ "session-window-changed" ∷ "sessions-changed" ∷ "subscription-changed" ∷ "unlinked-window-add"
    ∷ "unlinked-window-close" ∷ "unlinked-window-renamed" ∷ "window-add" ∷ "window-close"
    ∷ "window-pane-changed" ∷ "window-renamed" ∷ [])

-- An event, and the command that is open after it.
abbrev pub Decoded : Type 0
Decoded = Option (Event × Option CommandWitness)

-- A line that begins with `%end ` or `%error ` while a command is open: its fields must name it.
unfoldable pub close_command : CommandWitness → List (List ℕ) → Decoded
close_command w (word ∷ time ∷ number ∷ flags ∷ []) =
    if bytes_equal time w.time && bytes_equal number w.number && bytes_equal flags w.flags
    then some
        (bare (if bytes_equal word (codes "%error") then command_error else command_end), none)
    else none
close_command w fields = none

unfoldable pub decode_in_command : CommandWitness → List ℕ → Decoded
decode_in_command w line =
    if has_prefix line (codes "%begin ")
    then none
    else if has_prefix line (codes "%end ") || has_prefix line (codes "%error ")
    then close_command w (command_fields line)
    else some (record (bare command_response) { payload = line ++ (10 ∷ []) }, some w)

unfoldable pub open_command : List (List ℕ) → Decoded
open_command (word ∷ time ∷ number ∷ flags ∷ []) =
    some (bare command_begin, some (record { time = time; number = number; flags = flags }))
open_command fields = none

-- A notification: its name up to the first space, and its arguments behind it.
unfoldable pub notification_parts : List ℕ → List ℕ × List ℕ
notification_parts line = elim (index_byte line 32) [
  | none ↦ (drop 1 line, [])
  | some space ↦ (drop 1 (take space line), drop (space + 1) line)
]

unfoldable pub notification_kind : List ℕ → EventKind
notification_kind name =
    if bytes_equal name (codes "pause")
    then pause
    else if bytes_equal name (codes "continue")
    then continue
    else notification

unfoldable pub decode_notification : List ℕ → Decoded
decode_notification line =
    let (name, args) = notification_parts line in
    if known_notification name
    then some (record (bare (notification_kind name)) { name = name; args = args }, none)
    else none

abbrev pub outside_command : Option Event → Decoded
outside_command none = none
outside_command (some event) = some (event, none)

unfoldable pub decode_outside : List ℕ → Decoded
decode_outside line =
    if has_prefix line (codes "%begin ")
    then open_command (command_fields line)
    else if has_prefix line (codes "%output ")
    then outside_command (decode_output line false)
    else if has_prefix line (codes "%extended-output ")
    then outside_command (decode_output line true)
    else if has_prefix line (codes "%")
    then decode_notification line
    else none

unfoldable pub decode_line : Option CommandWitness → List ℕ → Decoded
decode_line (some w) line = decode_in_command w line
decode_line none line = decode_outside line
