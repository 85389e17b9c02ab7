-- ===== src/Propagation/W3c/Fields.antt =====
-- oteltrace/propagation/w3c.py: the pattern of a traceparent finds the fields that were written.
use Prim.Native.String.{◌++◌}
use text.Mathlib.TextLemmas.{cons-append, nil-append, append-nil}
use opentelemetry_auto_instr.Common.{
  ℕ, zero, suc, ◌≡◌, refl, sym, ◌∙◌, ap, true, some, false, String, arith, Bool-cases, inl, inr,
}
use opentelemetry_auto_instr.Text.{text_length, all_chars}
use opentelemetry_auto_instr.Propagation.B3.Fields.{IsField}
use opentelemetry_auto_instr.Propagation.W3c.{
  is_lower_hex, prepend, take_hex, take_dash, skip_blanks, match_traceparent,
}

take_hex-append :
    (n : ℕ) (s rest : String)
    → all_chars is_lower_hex s ≡ true
    → text_length s ≡ n
    → take_hex n (s ++ rest) ≡ some (s, rest)
unfolding take_hex
take_hex-append zero String.[] rest h e = simp nil-append refl
take_hex-append zero (String.◌∷◌ c s) rest h e = absurd (omega arith)
take_hex-append (suc n) String.[] rest h e = absurd (omega arith)
take_hex-append (suc n) (String.◌∷◌ c s) rest h e = elim (Bool-cases (is_lower_hex c)) [
  | inl digit ↦
      simp (cons-append, digit)
        (ap (prepend c) (take_hex-append n s rest (rw digit at h) (omega arith)))
  | inr other ↦ absurd (ground (arith, other, h))
]

abbrev dashed : String → String
dashed s = "-" ++ s

take_dash-dashed : (s : String) → take_dash (dashed s) ≡ some s
unfolding take_dash
take_dash-dashed s = rw (cons-append "-" "" s) (simp nil-append refl)

-- the text that `inject` writes, from its fields
abbrev pub written : String → String → String → String
written trace_id span_id options = "00-" ++ (trace_id ++ ("-" ++ (span_id ++ ("-" ++ options))))

two_zeros : (s : String) → "00" ++ s ≡ String.◌∷◌ "0" (String.◌∷◌ "0" s)
two_zeros s =
    cons-append "0" "0" s
    ∙ ap (String.◌∷◌ "0") (cons-append "0" "" s ∙ ap (String.◌∷◌ "0") (nil-append s))

start_written : (rest : String) → (skip_blanks ("00-" ++ rest) ≡ "00" ++ dashed rest)
unfolding skip_blanks
start_written rest =
    simp (cons-append "0" "0-" rest, cons-append "0" "-" rest, cons-append "-" "" rest, nil-append)
      (sym (two_zeros (String.◌∷◌ "-" rest)))

-- The pattern finds the three fields, version 00 and nothing after the options.
pub match_traceparent-written :
    (trace_id span_id options : String)
    → IsField 32 trace_id
    → IsField 16 span_id
    → IsField 2 options
    → match_traceparent (written trace_id span_id options)
      ≡ some (record {
        version = "00";
        trace_id = trace_id;
        span_id = span_id;
        options = options;
        has_more = false;
      })
unfolding match_traceparent
match_traceparent-written t s o ht hs ho =
    simp
      (
        start_written,
        take_hex-append 2 "00" (dashed (t ++ dashed (s ++ dashed o))) refl refl,
        take_dash-dashed,
        take_hex-append 32 t (dashed (s ++ dashed o)) ht.digits ht.long,
        take_hex-append 16 s (dashed o) hs.digits hs.long,
        last,
      )
      refl
  where
    last : take_hex 2 o ≡ some (o, "")
    last = ap (take_hex 2) (sym (append-nil o)) ∙ take_hex-append 2 o "" ho.digits ho.long
