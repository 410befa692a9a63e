-- ===== src/ControlMode/Line/Commands.antt =====
-- The lines of a command's reply: between `%begin` and the `%end` or `%error` that names the same
-- command there are only response lines.
use persea_terminal.Base.{
  ℕ, ◌≡◌, refl, ◌⊎◌, inl, inr, Bool, true, false, ◌&&◌, ◌||◌, Option, none, some, List, [], ◌∷◌,
  ◌++◌, arith, Bool-cases, Option-cases,
}
use persea_terminal.ControlMode.Bytes.{codes, bytes_equal, has_prefix, bytes_equal_sound}
use persea_terminal.ControlMode.Line.{
  EventKind, output, extended_output, pause, continue, notification, command_begin,
  command_response, command_end, command_error, Event, CommandWitness, command_fields,
  close_command, decode_in_command, open_command, notification_kind, decode_notification,
  outside_command, decode_output, decode_outside, decode_line,
}

-- What a line means while the command `w` is open.
pub data Reply (w : CommandWitness) (line : List ℕ) (e : Event) (next : Option CommandWitness)
    : Type 0 where
  responds :
      e.kind ≡ command_response
      → e.payload ≡ line ++ (10 ∷ [])
      → next ≡ some w
      → (has_prefix line (codes "%end ") || has_prefix line (codes "%error ")) ≡ false
      → Reply w line e next
  closes :
      (word : List ℕ)
      → (e.kind ≡ command_end) ⊎ (e.kind ≡ command_error)
      → next ≡ none
      → command_fields line ≡ word ∷ w.time ∷ w.number ∷ w.flags ∷ []
      → Reply w line e next

close_command-closes :
    (w : CommandWitness) (line : List ℕ) (fields : List (List ℕ)) (e : Event)
    (next : Option CommandWitness)
    → command_fields line ≡ fields
    → close_command w fields ≡ some (e, next)
    → Reply w line e next
unfolding close_command
close_command-closes w line [] e next f h = cc
close_command-closes w line (a ∷ []) e next f h = cc
close_command-closes w line (a ∷ b ∷ []) e next f h = cc
close_command-closes w line (a ∷ b ∷ c ∷ []) e next f h = cc
close_command-closes w line (a ∷ b ∷ c ∷ d ∷ x ∷ s) e next f h = cc
close_command-closes w line (word ∷ time ∷ number ∷ flags ∷ []) e next f h =
    elim (Bool-cases
      (bytes_equal time w.time && bytes_equal number w.number && bytes_equal flags w.flags)) [
        | inl same ↦ closes word (ground (arith, same)) (ground (arith, same)) (
            ground (
              arith,
              f,
              same,
              bytes_equal_sound time w.time,
              bytes_equal_sound number w.number,
              bytes_equal_sound flags w.flags,
            ))
        | inr other ↦ ground (arith, other)
      ]

-- While a command is open, a line is accepted only as one of its response lines, kept whole with its
-- newline, or as the end or the error that names the same command in four fields.
pub decode_line-Reply :
    (w : CommandWitness) (line : List ℕ) (e : Event) (next : Option CommandWitness)
    → decode_line (some w) line ≡ some (e, next)
    → Reply w line e next
unfolding decode_line decode_in_command
decode_line-Reply w line e next h = elim (Bool-cases (has_prefix line (codes "%begin "))) [
  | inl begins ↦ ground (arith, begins)
  | inr fresh ↦
      elim (Bool-cases (has_prefix line (codes "%end ") || has_prefix line (codes "%error "))) [
        | inl ends ↦
            close_command-closes w line (command_fields line) e next refl
              (ground (arith, fresh, ends))
        | inr speaks ↦
            responds (ground (arith, fresh, speaks)) (ground (arith, fresh, speaks))
              (ground (arith, fresh, speaks)) speaks
      ]
]

abbrev pub is_reply : EventKind → Bool
is_reply command_begin = true
is_reply command_response = true
is_reply command_end = true
is_reply command_error = true
is_reply output = false
is_reply extended_output = false
is_reply pause = false
is_reply continue = false
is_reply notification = false

open_command-begins :
    (fields : List (List ℕ)) (e : Event) (next : Option CommandWitness)
    → open_command fields ≡ some (e, next)
    → (e.kind ≡ command_begin) × (w : CommandWitness) × (next ≡ some w)
unfolding open_command
open_command-begins [] e next h = cc
open_command-begins (a ∷ []) e next h = cc
open_command-begins (a ∷ b ∷ []) e next h = cc
open_command-begins (a ∷ b ∷ c ∷ []) e next h = cc
open_command-begins (a ∷ b ∷ c ∷ d ∷ []) e next h =
    (ground arith, record { time = b; number = c; flags = d }, ground arith)
open_command-begins (a ∷ b ∷ c ∷ d ∷ x ∷ s) e next h = cc

decode_output-kind :
    (line : List ℕ) (extended : Bool) (e : Event)
    → decode_output line extended ≡ some e
    → is_reply e.kind ≡ false
unfolding decode_output
decode_output-kind line false e h = ground arith
decode_output-kind line true e h = ground arith

decode_notification-kind :
    (line : List ℕ) (e : Event) (next : Option CommandWitness)
    → decode_notification line ≡ some (e, next)
    → (is_reply e.kind ≡ false) × (next ≡ none)
unfolding decode_notification notification_kind
decode_notification-kind line e next h = ground arith

outside_command-kind :
    (line : List ℕ) (extended : Bool) (e : Event) (next : Option CommandWitness)
    → outside_command (decode_output line extended) ≡ some (e, next)
    → (is_reply e.kind ≡ false) × (next ≡ none)
outside_command-kind line extended e next h = elim (Option-cases (decode_output line extended)) [
  | inl none' ↦ ground (arith, none')
  | inr (x, some') ↦ ground (arith, some', decode_output-kind line extended x some')
]

-- What a line means while no command is open: a command begins, or an event of no command.
abbrev pub Outside : Event → Option CommandWitness → Type 0
Outside e next =
    ((e.kind ≡ command_begin) × (w : CommandWitness) × (next ≡ some w))
    ⊎ ((is_reply e.kind ≡ false) × (next ≡ none))

pub decode_line-Outside :
    (line : List ℕ) (e : Event) (next : Option CommandWitness)
    → decode_line none line ≡ some (e, next)
    → Outside e next
unfolding decode_line decode_outside
decode_line-Outside line e next h = elim (Bool-cases (has_prefix line (codes "%begin "))) [
  | inl begins ↦ inl (open_command-begins (command_fields line) e next (ground (arith, begins)))
  | inr x ↦ elim (Bool-cases (has_prefix line (codes "%output "))) [
    | inl outputs ↦ inr (outside_command-kind line false e next (ground (arith, x, outputs)))
    | inr y ↦ elim (Bool-cases (has_prefix line (codes "%extended-output "))) [
      | inl outputs ↦ inr (outside_command-kind line true e next (ground (arith, x, y, outputs)))
      | inr z ↦ elim (Bool-cases (has_prefix line (codes "%"))) [
        | inl notes ↦ inr (decode_notification-kind line e next (ground (arith, x, y, z, notes)))
        | inr bad ↦ ground (arith, x, y, z, bad)
      ]
    ]
  ]
]
