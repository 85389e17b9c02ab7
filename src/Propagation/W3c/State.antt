-- ===== src/Propagation/W3c/State.antt =====
-- oteltrace/propagation/w3c.py: `_parse_tracestate` reads back what `_format_tracestate` writes.
use Prim.Native.Char.{code}
use Prim.Native.String.{◌++◌ as append}
use text.Mathlib.TextLemmas.{
  cons-append, nil-append, append-nil, append-ne-nil_of_right_ne-nil, cons≢nil,
}
use mathlib.Core.List
use opentelemetry_auto_instr.Common.{
  ℕ, ◌+◌, ◌<◌, ◌≤◌, ◌≡◌, refl, sym, ◌∙◌, ap, ◌==◌, true, false, some, String, List, [], ◌∷◌, ◌++◌,
  map, length, All, Dict, contains, insert, lookup, ltb, str_eq, eq_iff, arith, Bool-cases, inl,
  inr,
}
use opentelemetry_auto_instr.Text.{all_chars}
use opentelemetry_auto_instr.Propagation.W3c.Members.{
  IsMember, shown, is_plain, append_equals, key_plain, value_plain, skip_blanks-shown,
  drop_end_blanks-shown,
}
use opentelemetry_auto_instr.Propagation.W3c.{
  cut_commas, trim, split_members, cut_at, match_member, member_of, parse_members, parse_tracestate,
  format_tracestate,
}

-- Each key is new to the members before it.
abbrev pub Fresh : Dict String → Dict String → Type 0
Fresh before [] = Unit
Fresh before ((key, value) ∷ members) =
    (contains key before ≡ false) × Fresh (before ++ (key, value) ∷ []) members

-- A text with no comma goes to the first member.
cut_commas-append :
    (s t : String)
    → all_chars is_plain s ≡ true
    → cut_commas (append s t) ≡ (append s (cut_commas t).0, (cut_commas t).1)
unfolding cut_commas
cut_commas-append String.[] t h = simp nil-append refl
cut_commas-append (String.◌∷◌ c s) t h = elim (Bool-cases (is_plain c)) [
  | inl plain ↦
      (let other : (code c == 44) ≡ false = ground (arith, plain) in
        simp (cons-append, other, cut_commas-append s t (rw plain at h)) refl)
  | inr comma ↦ absurd (ground (arith, comma, h))
]

cut_commas_equals :
    (t : String) → cut_commas (append "=" t) ≡ (append "=" (cut_commas t).0, (cut_commas t).1)
unfolding cut_commas
cut_commas_equals t = rw (append_equals t, append_equals (cut_commas t).0) refl

cut_commas-shown :
    (key value t : String)
    → all_chars is_plain key ≡ true
    → all_chars is_plain value ≡ true
    → cut_commas (append key (append "=" (append value t)))
      ≡ (append key (append "=" (append value (cut_commas t).0)), (cut_commas t).1)
cut_commas-shown key value t hk hv =
    cut_commas-append key _ hk
    ∙ ap (λ (p : String × List String). (append key p.0, p.1))
        (cut_commas_equals (append value t)
          ∙ ap (λ (p : String × List String). (append "=" p.0, p.1)) (cut_commas-append value t hv))

cut_commas_comma :
    (t : String) → cut_commas (append "," t) ≡ ("", (cut_commas t).0 ∷ (cut_commas t).1)
unfolding cut_commas
cut_commas_comma t = rw (cons-append "," "" t ∙ ap (String.◌∷◌ ",") (nil-append t)) refl

cut_commas_last :
    (key value : String)
    → IsMember (key, value)
    → cut_commas (shown (key, value)) ≡ (shown (key, value), [])
unfolding cut_commas
cut_commas_last key value m =
    ap (λ t. cut_commas (append key (append "=" t))) (sym (append-nil value))
    ∙ cut_commas-shown key value "" (key_plain key m.key) (value_plain value m.value)
    ∙ ap (λ (t : String). (append key (append "=" t), [])) (append-nil value)

cut_commas_next :
    (key value t member : String) (members : List String)
    → IsMember (key, value)
    → cut_commas t ≡ (member, members)
    → cut_commas (append key (append "=" (append value (append "," t))))
      ≡ (shown (key, value), member ∷ members)
cut_commas_next key value t member members m e =
    cut_commas-shown key value (append "," t) (key_plain key m.key) (value_plain value m.value)
    ∙ ap (λ (p : String × List String). (append key (append "=" (append value p.0)), p.1))
        (cut_commas_comma t ∙ ap (λ (p : String × List String). ("", p.0 ∷ p.1)) e)
    ∙ ap (λ (s : String). (append key (append "=" s), member ∷ members)) (append-nil value)

-- The members of a formatted state are the texts of its members.
cut_commas-format :
    (key value : String) (members : Dict String)
    → IsMember (key, value)
    → All IsMember members
    → cut_commas (format_tracestate ((key, value) ∷ members))
      ≡ (shown (key, value), map shown members)
unfolding format_tracestate
cut_commas-format key value [] m ms = cut_commas_last key value m
cut_commas-format key value ((k, v) ∷ members) m ms =
    cut_commas_next key value _ (shown (k, v)) (map shown members) m
      (cut_commas-format k v members ms.0 ms.1)

-- No member has a blank at an end.
trim-shown :
    (key value : String) (members : Dict String)
    → IsMember (key, value)
    → All IsMember members
    → trim (shown (key, value)) (map shown members) ≡ shown (key, value) ∷ map shown members
unfolding trim
trim-shown key value [] m ms = refl
trim-shown key value ((k, v) ∷ members) m ms =
    simp (drop_end_blanks-shown key value m.ended, skip_blanks-shown k v ms.0.key)
      (ap (◌∷◌ (shown (key, value))) (trim-shown k v members ms.0 ms.1))

cut_at-append :
    (key value : String)
    → all_chars is_plain key ≡ true
    → cut_at 61 (append key (append "=" value)) ≡ some (key, value)
unfolding cut_at
cut_at-append String.[] value h = rw (nil-append (append "=" value), append_equals value) refl
cut_at-append (String.◌∷◌ c s) value h = elim (Bool-cases (is_plain c)) [
  | inl plain ↦
      (let other : (code c == 61) ≡ false = ground (arith, plain) in
        simp (cons-append, other, cut_at-append s value (rw plain at h)) refl)
  | inr mark ↦ absurd (ground (arith, mark, h))
]

match_member-shown :
    (key value : String)
    → IsMember (key, value)
    → match_member (shown (key, value)) ≡ some (key, value)
unfolding match_member member_of
match_member-shown key value m =
    rw (cut_at-append key value (key_plain key m.key), m.ended, m.key, m.value) refl

insert_new :
    (key value : String) (d : Dict String)
    → contains key d ≡ false
    → insert key value d ≡ d ++ (key, value) ∷ []
unfolding insert contains lookup
insert_new key value [] h = refl
insert_new key value ((k, v) ∷ d) h = ground (arith, insert_new key value d)

parse_members_next :
    (member key value : String) (members : List String) (count : ℕ) (state : Dict String)
    → str_eq member "" ≡ false
    → match_member member ≡ some (key, value)
    → contains key state ≡ false
    → count < 32
    → parse_members (member ∷ members) count state
      ≡ parse_members members (count + 1) (state ++ (key, value) ∷ [])
unfolding parse_members
parse_members_next member key value members count state given matched new room =
    let few : ltb 32 (count + 1) ≡ false = ground arith in
    rw (given, matched, new, few, parse_members)
      (ap (parse_members members (count + 1)) (insert_new key value state new))

shown_given : (key value : String) → str_eq (shown (key, value)) "" ≡ false
shown_given key value = elim (Bool-cases (str_eq (shown (key, value)) "")) [
  | inl empty ↦ absurd (
      append-ne-nil_of_right_ne-nil key (λ e. cons≢nil (sym (append_equals value) ∙ e))
        ((eq_iff (shown (key, value)) "").0 empty))
  | inr given ↦ given
]

parse_members-shown :
    (members before : Dict String) (count : ℕ)
    → All IsMember members
    → Fresh before members
    → count + length members ≤ 32
    → parse_members (map shown members) count before ≡ before ++ members
parse_members-shown [] before count ms f h = unfold parse_members in sym (List.append-nil before)
parse_members-shown ((key, value) ∷ members) before count ms f h =
    parse_members_next (shown (key, value)) key value (map shown members) count before
      (shown_given key value) (match_member-shown key value ms.0) f.0 (omega arith)
    ∙ parse_members-shown members (before ++ (key, value) ∷ []) (count + 1) ms.1 f.1 (omega arith)
    ∙ List.append_assoc before ((key, value) ∷ []) members

-- A state of at most 32 members that the format of tracestate allows, with different keys, is
-- formatted to a header that is parsed to the same state.
pub parse_tracestate-format :
    (state : Dict String)
    → All IsMember state
    → Fresh [] state
    → length state ≤ 32
    → parse_tracestate (some (format_tracestate state)) ≡ state
unfolding parse_tracestate split_members
parse_tracestate-format [] ms f h = unfold cut_commas trim parse_members format_tracestate in refl
parse_tracestate-format ((key, value) ∷ members) ms f h =
    ap (λ (p : String × List String). parse_members (trim p.0 p.1) 0 [])
      (cut_commas-format key value members ms.0 ms.1)
    ∙ ap (λ t. parse_members t 0 []) (trim-shown key value members ms.0 ms.1)
    ∙ parse_members-shown ((key, value) ∷ members) [] 0 ms f (omega arith)
