-- ===== src/ControlMode/Line/Outputs.antt =====
-- Output records: what is decoded from a line that was written for a pane.
use persea_terminal.Base.{
  ℕ, ◌+◌, ◌<◌, ◌≡◌, ap, ◌∙◌, Bool, true, none, some, List, ◌∷◌, ◌++◌, arith, length, drop,
  take-append, drop-append, drop-drop,
}
use persea_terminal.ControlMode.Bytes.{codes, Lacks, index_byte-append}
use persea_terminal.ControlMode.Payload.{encode_payload, AllBytes, backslash, decode-encode}
use persea_terminal.ControlMode.Line.{
  output, bare, cut_space, decode_output, decode_outside, decode_line,
}

-- A pane's name: not empty, with no space and no newline.
pub record IsPane (pane : List ℕ) : Type 0 where
  pub named : 0 < length pane
  pub no_space : Lacks 32 pane
  pub no_newline : Lacks 10 pane

abbrev pub output_line : (ℕ → Bool) → List ℕ → List ℕ → List ℕ
output_line escapes pane s = codes "%output " ++ (pane ++ (32 ∷ encode_payload escapes s))

cut_space-append : (pane s : List ℕ) → IsPane pane → cut_space (pane ++ (32 ∷ s)) ≡ some (pane, s)
unfolding cut_space
cut_space-append pane s p =
    ground (arith, index_byte-append pane s 32 p.no_space, take-append pane (32 ∷ s), drop_behind)
  where
    drop_behind : drop (length pane + 1) (pane ++ (32 ∷ s)) ≡ s
    drop_behind =
        drop-drop (length pane) 1 (pane ++ (32 ∷ s)) ∙ ap (drop 1) (drop-append pane (32 ∷ s))

-- An output record for a pane, with any bytes escaped besides the backslash, is decoded to the
-- pane's name and the bytes.
pub decode_line-output_line :
    (escapes : ℕ → Bool) (pane s : List ℕ)
    → escapes backslash ≡ true
    → IsPane pane
    → AllBytes s
    → decode_line none (output_line escapes pane s)
      ≡ some (record (bare output) { pane_id = pane; payload = s }, none)
unfolding decode_line decode_outside decode_output
decode_line-output_line escapes pane s h p all =
    ground
      (arith, cut_space-append pane (encode_payload escapes s) p, decode-encode escapes s h all)
