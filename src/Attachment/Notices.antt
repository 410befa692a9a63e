-- ===== src/Attachment/Notices.antt =====
-- The heartbeats and the refusals of internal/attachmentwire (transport_liveness.go,
-- transport_refusal.go), and the classes of the codes of internal/proto/attachment_errors.go.
pub mod Heartbeats
pub mod Refusals
mod Tests
use persea_terminal.Base.{
  ℕ, Bool, true, false, not, ◌&&◌, ◌||◌, Option, none, some, List, [], ◌∷◌, ◌++◌, leb, ◌==◌,
  if◌then◌else◌, length, take, drop, get_or,
}
use persea_terminal.ControlMode.Bytes.{codes, bytes_equal, has_prefix}
use persea_terminal.Attachment.Transport.{
  Direction, server_to_browser, browser_to_server, other_direction, is_server_to_browser,
  Recognized, ordinary, violation, frame, frame_or_violation, has_code,
}

abbrev pub transport_liveness_prefix : List ℕ
transport_liveness_prefix = codes "PERSEA-LIVENESS/1 "

abbrev pub transport_liveness_frame_bytes : ℕ
transport_liveness_frame_bytes = 55

-- A kind, or any other value of its type.
pub data TransportLivenessKind : Type 0 where
  ping pong other_kind : TransportLivenessKind

pub record TransportLivenessFrame : Type 0 where
  pub kind : TransportLivenessKind
  pub nonce : List ℕ

abbrev pub is_hex_digit : ℕ → Bool
is_hex_digit c = (leb 48 c && leb c 57) || (leb 97 c && leb c 102)

unfoldable pub all_hex : List ℕ → Bool
all_hex [] = true
all_hex (c ∷ s) = is_hex_digit c && all_hex s

unfoldable pub is_valid_nonce : List ℕ → Bool
is_valid_nonce nonce = length nonce == 32 && all_hex nonce

abbrev pub liveness_verb : TransportLivenessKind → Direction → Option (List ℕ)
liveness_verb ping browser_to_server = some (codes "PING")
liveness_verb pong server_to_browser = some (codes "PONG")
liveness_verb ping server_to_browser = none
liveness_verb ping other_direction = none
liveness_verb pong browser_to_server = none
liveness_verb pong other_direction = none
liveness_verb other_kind direction = none

abbrev pub verb_kind : List ℕ → Option TransportLivenessKind
verb_kind verb =
    if bytes_equal verb (codes "PING")
    then some ping
    else if bytes_equal verb (codes "PONG")
    then some pong
    else none

abbrev pub allowed_frame :
    List ℕ → Direction → Option TransportLivenessKind → Option TransportLivenessFrame
allowed_frame nonce direction none = none
allowed_frame nonce direction (some kind) = elim (liveness_verb kind direction) [
  | none ↦ none
  | some verb ↦ some (record { kind = kind; nonce = nonce })
]

-- What stands behind the prefix.
unfoldable pub liveness_body : List ℕ → Direction → Option TransportLivenessFrame
liveness_body body direction =
    let nonce = drop 5 body in
    if not (get_or body 4 0 == 32)
    then none
    else if not (is_valid_nonce nonce)
    then none
    else allowed_frame nonce direction (verb_kind (take 4 body))

unfoldable pub decode_transport_liveness : List ℕ → Direction → Recognized TransportLivenessFrame
decode_transport_liveness raw direction =
    if not (has_prefix raw transport_liveness_prefix)
    then ordinary
    else if not (length raw == transport_liveness_frame_bytes)
    then violation
    else frame_or_violation (liveness_body (drop (length transport_liveness_prefix) raw) direction)

abbrev pub liveness_with : List ℕ → Option (List ℕ) → Option (List ℕ)
liveness_with nonce none = none
liveness_with nonce (some verb) =
    if not (is_valid_nonce nonce)
    then none
    else some (transport_liveness_prefix ++ (verb ++ (32 ∷ nonce)))

unfoldable pub encode_transport_liveness : TransportLivenessFrame → Direction → Option (List ℕ)
encode_transport_liveness f direction = liveness_with f.nonce (liveness_verb f.kind direction)

abbrev pub transport_refusal_prefix : List ℕ
transport_refusal_prefix = codes "PERSEA-REFUSAL/1 "

abbrev pub is_code_byte : ℕ → Bool
is_code_byte c = (leb 97 c && leb c 122) || (leb 48 c && leb c 57) || c == 95

unfoldable pub all_code_bytes : List ℕ → Bool
all_code_bytes [] = true
all_code_bytes (c ∷ s) = is_code_byte c && all_code_bytes s

-- The expression `^[a-z][a-z0-9_]{0,63}$`.
unfoldable pub is_refusal_code : List ℕ → Bool
is_refusal_code [] = false
is_refusal_code (c ∷ s) = leb 97 c && leb c 122 && leb (length s) 63 && all_code_bytes s

unfoldable pub encode_transport_refusal : List ℕ → Direction → Option (List ℕ)
encode_transport_refusal code direction =
    if not (is_server_to_browser direction) || not (is_refusal_code code)
    then none
    else some (transport_refusal_prefix ++ code)

unfoldable pub decode_transport_refusal : List ℕ → Direction → Recognized (List ℕ)
decode_transport_refusal raw direction =
    let code = drop (length transport_refusal_prefix) raw in
    if not (has_prefix raw transport_refusal_prefix)
    then ordinary
    else if not (is_server_to_browser direction) || not (is_refusal_code code)
    then violation
    else frame code

pub data AttachmentErrorClass : Type 0 where
  unknown operational fatal : AttachmentErrorClass

abbrev pub operational_attachment_codes : List (List ℕ)
operational_attachment_codes =
    codes "resize_failed" ∷ codes "resize_rejected" ∷ codes "observe_mode" ∷ []

abbrev pub subscriber_close_reasons : List (List ℕ)
subscriber_close_reasons =
    codes "generation_rotated"
    ∷ codes "generation_refit"
    ∷ codes "subscriber_lagged"
    ∷ codes "generation_failed"
    ∷ codes "refit_faulted"
    ∷ []

abbrev pub fatal_attachment_codes : List (List ℕ)
fatal_attachment_codes =
    codes "attach_failed"
    ∷ codes "attachment_failed"
    ∷ codes "bad_attachment"
    ∷ codes "bad_control"
    ∷ codes "bad_frame"
    ∷ codes "bad_history"
    ∷ codes "bad_mode"
    ∷ codes "history_failed"
    ∷ codes "protocol"
    ∷ codes "snapshot_failed"
    ∷ codes "stale_target"
    ∷ codes "unified_unavailable"
    ∷ codes "generation_rotated"
    ∷ codes "generation_refit"
    ∷ codes "subscriber_lagged"
    ∷ codes "generation_failed"
    ∷ codes "refit_faulted"
    ∷ []

unfoldable pub is_subscriber_close_reason : List ℕ → Bool
is_subscriber_close_reason reason = has_code subscriber_close_reasons reason

unfoldable pub classify_attachment_error : List ℕ → AttachmentErrorClass
classify_attachment_error code =
    if has_code operational_attachment_codes code
    then operational
    else if has_code fatal_attachment_codes code
    then fatal
    else unknown
