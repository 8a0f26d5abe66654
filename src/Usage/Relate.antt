-- ===== src/Usage/Relate.antt =====
-- Two scans of one file (internal/usage/scan.go): what their callbacks keep between their states, the
-- scans keep.
use cube.Prelude.{inl, inr, Bool, Option, List, [], ◌∷◌, Bool-cases, Option-cases, Str, length, ltb}
use cube.Usage.Json.{Fields}
use cube.Usage.Scan.{LogFile, scan_line, scan_lines, scan_jsonl, without_return, scan_max_buf}

module _ {ℓ κ} {S : Type ℓ} {T : Type κ} (decode : Str → Option Fields) (filter : Str → Bool)
    (f : Fields → S → S) (g : Fields → T → T) (R : S → T → Type 0)
    (keeps : (value : Fields) (s : S) (t : T) → R s t → R (f value s) (g value t)) where
  scan_line-relates :
      (line : Str) (s : S) (t : T)
      → R s t
      → R (scan_line decode filter f line s) (scan_line decode filter g line t)
  unfolding scan_line
  scan_line-relates line s t r = elim (Bool-cases (filter line)) [
    | inr e ↦ rw e r
    | inl e ↦ rw e (elim (Option-cases (decode line)) [
      | inl d ↦ rw d r
      | inr (value, d) ↦ rw d (keeps value s t r)
    ])
  ]

  scan_lines-relates :
      (cut : Bool) (lines : List Str) (s : S) (t : T)
      → R s t
      → R (scan_lines decode filter f cut lines s).0 (scan_lines decode filter g cut lines t).0
  unfolding scan_lines
  scan_lines-relates cut [] s t r = r
  scan_lines-relates cut (line ∷ lines) s t r = elim (Bool-cases (ltb (length line) scan_max_buf)) [
    | inr e ↦ rw e r
    | inl e ↦
        rw e (scan_lines-relates cut lines _ _ (scan_line-relates (without_return line) s t r))
  ]

  pub scan_jsonl-relates :
      (file : LogFile) (s : S) (t : T)
      → R s t
      → R (scan_jsonl decode filter f file s).0 (scan_jsonl decode filter g file t).0
  unfolding scan_jsonl
  scan_jsonl-relates file s t r = elim (Option-cases file.lines) [
    | inl e ↦ rw e r
    | inr (lines, e) ↦ rw e (scan_lines-relates file.cut lines s t r)
  ]
