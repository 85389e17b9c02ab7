-- ===== src/Propagation/W3c/Tracestate.antt =====
-- oteltrace/propagation/w3c.py: the header tracestate, its expressions and its loop.
use Prim.Native.Char.{Char, code}
use Prim.Native.String.{◌++◌}
use opentelemetry_auto_instr.Common.{
  ℕ, ◌+◌, ◌==◌, Bool, false, not, ◌&&◌, ◌||◌, Option, none, some, String, List, [], ◌∷◌, Dict,
  insert, contains, leb, ltb, str_eq, if◌then◌else◌,
}
use opentelemetry_auto_instr.Text.{text_length, all_chars, is_lower}

-- `_format_tracestate`, which joins the members by commas
unfoldable pub format_tracestate : Dict String → String
format_tracestate [] = ""
format_tracestate ((key, value) ∷ []) = key ++ ("=" ++ value)
format_tracestate ((key, value) ∷ m ∷ ms) =
    key ++ ("=" ++ (value ++ ("," ++ format_tracestate (m ∷ ms))))

-- [ \t]
abbrev pub is_blank : Char → Bool
is_blank c = (code c == 32) || (code c == 9)

unfoldable pub skip_blanks : String → String
skip_blanks String.[] = ""
skip_blanks (String.◌∷◌ c s) =
    let rest = skip_blanks s in if is_blank c then rest else String.◌∷◌ c s

-- the text without the blanks at its end
unfoldable pub drop_end_blanks : String → String
drop_end_blanks String.[] = ""
drop_end_blanks (String.◌∷◌ c s) =
    let rest = drop_end_blanks s in if is_blank c && str_eq rest "" then "" else String.◌∷◌ c rest

-- the text before the first comma, and the texts after each comma
unfoldable pub cut_commas : String → String × List String
cut_commas String.[] = ("", [])
cut_commas (String.◌∷◌ c s) =
    let (member, members) = cut_commas s in
    if code c == 44 then ("", member ∷ members) else (String.◌∷◌ c member, members)

-- A delimiter takes the blanks on both of its sides.
unfoldable pub trim : String → List String → List String
unfolding skip_blanks drop_end_blanks
trim member [] = member ∷ []
trim member (next ∷ members) = drop_end_blanks member ∷ trim (skip_blanks next) members

-- `re.split(_DELIMITER_FORMAT_RE, header)`
unfoldable pub split_members : String → List String
unfolding trim cut_commas
split_members header = let (member, members) = cut_commas header in trim member members

-- [_0-9a-z\-\*\/]
abbrev pub is_key_char : Char → Bool
is_key_char c =
    is_lower c
    || ((leb 48 (code c) && leb (code c) 57)
        || ((code c == 95) || ((code c == 45) || ((code c == 42) || (code c == 47)))))

-- [\x20-\x2b\x2d-\x3c\x3e-\x7e]
abbrev pub is_value_char : Char → Bool
is_value_char c =
    leb 32 (code c) && (leb (code c) 126 && (not (code c == 44) && not (code c == 61)))

-- [a-z][_0-9a-z\-\*\/]{0,n}
abbrev pub is_word : ℕ → String → Bool
is_word n String.[] = false
is_word n (String.◌∷◌ c s) = is_lower c && (all_chars is_key_char s && leb (text_length s) n)

-- the texts before and after the first character of a code, if there is one
abbrev pub push_before : Char → Option (String × String) → Option (String × String)
push_before c none = none
push_before c (some (before, after)) = some (String.◌∷◌ c before, after)

unfoldable pub cut_at : ℕ → String → Option (String × String)
cut_at mark String.[] = none
cut_at mark (String.◌∷◌ c s) =
    let rest = cut_at mark s in if code c == mark then some ("", s) else push_before c rest

-- `_KEY_WITH_VENDOR_FORMAT`
unfoldable pub is_vendor_key : String → Bool
unfolding cut_at
is_vendor_key key = elim (cut_at 64 key) [
  | none ↦ false
  | some (tenant, vendor) ↦ is_word 240 tenant && is_word 13 vendor
]

-- `_KEY_FORMAT`
unfoldable pub is_key : String → Bool
unfolding cut_at
is_key key = is_word 255 key || is_vendor_key key

-- `_VALUE_FORMAT`, of a text that does not end in a blank
abbrev pub is_value : String → Bool
is_value value =
    all_chars is_value_char value && (not (str_eq value "") && leb (text_length value) 256)

-- a key and what stands behind the equals sign, if they have the format
unfoldable pub member_of : Option (String × String) → Option (String × String)
member_of none = none
member_of (some (key, rest)) =
    if is_key key && is_value (drop_end_blanks rest) then some (key, drop_end_blanks rest) else none

-- `_MEMBER_FORMAT_RE.fullmatch(member)`: no key holds an equals sign, and no value ends in a blank.
unfoldable pub match_member : String → Option (String × String)
match_member member = member_of (cut_at 61 member)

-- What the loop of `_parse_tracestate` does with the match of a member, and then the rest of the loop.
unfoldable pub take_member :
    (ℕ → Dict String → Dict String) → ℕ → Dict String → Option (String × String) → Dict String
take_member continue count state none = []
take_member continue count state (some (key, value)) =
    if contains key state || ltb 32 (count + 1)
    then []
    else continue (count + 1) (insert key value state)

-- The loop of `_parse_tracestate`; a match that fails, a key that is there and a member too many empty
-- the state.
unfoldable pub parse_members : List String → ℕ → Dict String → Dict String
unfolding take_member
parse_members [] count state = state
parse_members (member ∷ members) count state =
    let rest = parse_members members in
    if str_eq member ""
    then rest count state
    else take_member rest count state (match_member member)

-- `_parse_tracestate`
unfoldable pub parse_tracestate : Option String → Dict String
unfolding split_members parse_members
parse_tracestate none = []
parse_tracestate (some header) = parse_members (split_members header) 0 []
