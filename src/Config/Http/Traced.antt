-- ===== src/Config/Http/Traced.antt =====
-- oteltrace/settings/http.py: which headers are traced after `trace_headers`.
use opentelemetry_auto_instr.Common.{
  ◌≡◌, refl, ◌∙◌, ap, Bool, true, false, not, ◌&&◌, ◌||◌, Option, none, some, String, List, [], ◌∷◌,
  ◌++◌, any_of, member, str_eq, eq_iff, arith,
}
use opentelemetry_auto_instr.Text.{lower, strip}
use opentelemetry_auto_instr.Config.Http.{
  HttpConfig, normalize_header_name, add_header, trace_headers, header_is_traced,
}

-- two names that are the same but for case and the spaces around them, and not empty
abbrev pub names : String → Option String → Bool
names header none = false
names header (some name) =
    not (str_eq (lower (strip name)) "") && str_eq (lower (strip name)) (lower (strip header))

member-append_one :
    (k j : String) (s : List String) → member k (s ++ j ∷ []) ≡ (member k s || str_eq j k)
member-append_one k j [] = ground arith
member-append_one k j (i ∷ s) = ground (arith, member-append_one k j s)

member_step :
    (k name : String) (http : HttpConfig)
    → member k (add_header (some name) http).whitelist_headers
      ≡ (member k http.whitelist_headers || (not (str_eq name "") && str_eq name k))
unfolding add_header
member_step k name http = ground (
  arith,
  eq_iff name k,
  eq_iff name "",
  member-append_one k name http.whitelist_headers,
  ap (λ j. member j http.whitelist_headers) {x = name} {y = k},
)

member-add_header :
    (header : String) (name : Option String) (http : HttpConfig)
    → member (lower (strip header)) (add_header (normalize_header_name name) http).whitelist_headers
      ≡ (member (lower (strip header)) http.whitelist_headers || names header name)
unfolding normalize_header_name
member-add_header header none http = unfold add_header in ground arith
member-add_header header (some name) http =
    member_step (lower (strip header)) (lower (strip name)) http

or_assoc : (a b c : Bool) → ((a || b) || c) ≡ (a || (b || c))
or_assoc true b c = refl
or_assoc false b c = refl

-- After `trace_headers`, a header is traced exactly if it was before, or if the list names it: by a
-- name that is the same but for case and the spaces around the two, and is not blank.
pub header_is_traced-trace_headers :
    (list : List (Option String)) (http : HttpConfig) (header : String)
    → header_is_traced (some header) (trace_headers list http)
      ≡ (header_is_traced (some header) http || any_of (names header) list)
unfolding header_is_traced trace_headers normalize_header_name
header_is_traced-trace_headers [] http header = ground arith
header_is_traced-trace_headers (name ∷ list) http header =
    header_is_traced-trace_headers list (add_header (normalize_header_name name) http) header
    ∙ ap (λ b. b || any_of (names header) list) (member-add_header header name http)
    ∙ or_assoc (member (lower (strip header)) http.whitelist_headers) (names header name)
        (any_of (names header) list)
