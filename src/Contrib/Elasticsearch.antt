-- ===== src/Contrib/Elasticsearch.antt =====
-- oteltrace/contrib/elasticsearch/patch.py, quantize.py: the requests of an Elasticsearch client. The two
-- regular expressions are written out as scans; addresses are ASCII.
pub mod Quantized
pub mod Transparent
mod Tests
use Prim.Native.Char.{Char, code}
use Prim.Native.String.{◌++◌}
use opentelemetry_auto_instr.Common.{
  ℕ, ◌==◌, leb, Bool, true, false, ◌&&◌, ◌||◌, Option, none, some, String, List, [], ◌∷◌, Dict,
  Error, Result, ok, raised, Exec, ◌>>=◌, ◌>>◌, pure, raise, type_error, value_error, modify,
  str_eq, if◌then◌else◌,
}
use opentelemetry_auto_instr.Value.{Value, text, analytics_sample_rate_key}
use opentelemetry_auto_instr.World.{World, Span, on_span}
use opentelemetry_auto_instr.Span.{set_metric, set_tag, get_tag}
use opentelemetry_auto_instr.Tracer.{StartArgs}
use opentelemetry_auto_instr.Pin.{Pin, service}
use opentelemetry_auto_instr.Traced.{Program, Readings, with_span, on_tracing, on_rest, enabled_pin}

abbrev pub is_digit_char : Char → Bool
is_digit_char c = leb 48 (code c) && leb (code c) 57

-- What of `/([0-9]+)([/\?]|$)` was read: nothing, or a slash and digits.
pub data IdState : Type 0 where
  outside : IdState
  after_slash : String → IdState

-- whether the text ends here for `$`, which also matches before a last line feed
abbrev pub is_last : Char → String → Bool
is_last c rest = code c == 10 && str_eq rest ""

abbrev pub ends_id : Char → String → Bool
ends_id c rest = (code c == 47 || code c == 63) || is_last c rest

-- a digit of an identifier, or else the slash and the digits are passed on and a slash starts again
abbrev pub next_id : IdState → Char → String → IdState
next_id outside c rest = if code c == 47 then after_slash "" else outside
next_id (after_slash digits) c rest =
    if is_digit_char c
    then after_slash (digits ++ String.◌∷◌ c "")
    else if str_eq digits "" && code c == 47
    then after_slash ""
    else outside

abbrev pub emit_id : IdState → Char → String → String → String
emit_id outside c rest out = if code c == 47 then out else String.◌∷◌ c out
emit_id (after_slash digits) c rest out =
    if is_digit_char c
    then out
    else if str_eq digits ""
    then (if code c == 47 then String.◌∷◌ "/" out else String.◌∷◌ "/" (String.◌∷◌ c out))
    else if ends_id c rest
    then "/?" ++ String.◌∷◌ c out
    else String.◌∷◌ "/" (digits ++ String.◌∷◌ c out)

-- `ID_REGEXP.sub(ID_PLACEHOLDER, url)`
pub sub_ids : IdState → String → String
sub_ids outside String.[] = ""
sub_ids (after_slash digits) String.[] = if str_eq digits "" then "/" else "/?"
sub_ids st (String.◌∷◌ c s) = let out = sub_ids (next_id st c s) s in emit_id st c s out

-- How many digits in a row were read: none, this one, or more.
pub data Run : Type 0 where
  no_digit : Run
  one_digit : Char → Run
  more_digits : Run

abbrev pub next_run : Run → Char → Run
next_run no_digit c = if is_digit_char c then one_digit c else no_digit
next_run (one_digit d) c = if is_digit_char c then more_digits else no_digit
next_run more_digits c = if is_digit_char c then more_digits else no_digit

abbrev pub flush : Run → String → String
flush no_digit out = out
flush (one_digit d) out = String.◌∷◌ d out
flush more_digits out = String.◌∷◌ "?" out

-- `INDEX_REGEXP.sub(INDEX_PLACEHOLDER, quantized_url)`
pub sub_indexes : Run → String → String
sub_indexes run String.[] = flush run ""
sub_indexes run (String.◌∷◌ c s) =
    let out = sub_indexes (next_run run c) s in
    if is_digit_char c then out else flush run (String.◌∷◌ c out)

abbrev pub tag_text : Option String → String
tag_text none = "None"
tag_text (some s) = s

pub quantized_url : String → String
quantized_url url = sub_indexes no_digit (sub_ids outside url)

abbrev pub url_key : String
url_key = "elasticsearch.url"

abbrev pub method_key : String
method_key = "elasticsearch.method"

-- `quantize`, for a span with an address
pub quantize : Span → Span
quantize span = record span {
  resource =
      tag_text (get_tag method_key span)
      ++ (" " ++ quantized_url (tag_text (get_tag url_key span)));
}

-- A request: its positional arguments, its encoded parameters, if it has any, what dumping its body
-- returns or raises, the pinned transport that sends it, whether query strings are tagged, and the
-- analytics rate of the settings, as a value.
pub record Search : Type 0 where
  pub transport : ℕ
  pub args : List String
  pub params : Option String
  pub body : Result Value
  pub trace_query_string : Bool
  pub analytics : Value

-- What the handler makes of the end of the call: the status of an exception that is a transport error
-- (500 if it has none), and the status and the time of a result, where they are found.
pub record Outcome (A : Type 0) : Type 0 where
  pub error_status : Error → Option Value
  pub status : A → Option Value
  pub took : A → Option Value

abbrev pub status_key : String
status_key = "http.status_code"

-- `urlencode(params)`, which raises for None
abbrev pub encode : Option String → Exec World String
encode none = raise type_error
encode (some params) = pure params

-- `method, url = args`
abbrev pub unpack : List String → Exec World (String × String)
unpack (method ∷ url ∷ []) = pure (method, url)
unpack args = raise value_error

-- `instance.serializer.dumps(body)`
abbrev pub dumped : Result Value → Exec World Value
dumped (ok body) = pure body
dumped (raised e) = raise e

abbrev pub tag_body : Search → ℕ → Exec World Unit
tag_body search r = do body ← dumped search.body; set_tag r "elasticsearch.body" body

abbrev pub request_tags : Readings → Search → Option String → ℕ → String × String → Exec World Unit
request_tags at search service r (method, url) = do
  modify (on_span r (λ span. record span { service = service; span_type = some "elasticsearch" }))
  set_tag r method_key (text method (at.as_float method))
  set_tag r url_key (text url (at.as_float url))
  params ← encode search.params
  set_tag r "elasticsearch.params" (text params (at.as_float params))
  if search.trace_query_string
      then set_tag r "http.query.string" (text params (at.as_float params))
      else pure tt
  if str_eq method "GET" then tag_body search r else pure tt
  set_tag r analytics_sample_rate_key search.analytics
  modify (on_span r quantize)

pub search_tags : Readings → Search → Option String → ℕ → Exec World Unit
search_tags at search service r = do
  args ← unpack search.args
  request_tags at search service r args

abbrev pub tag_status : ℕ → Option Value → Exec World Unit
tag_status r none = pure tt
tag_status r (some status) = set_tag r status_key status

abbrev pub set_took : ℕ → Option Value → World → World
set_took r none w = w
set_took r (some took) w = on_span r (set_metric "elasticsearch.took" took) w

abbrev pub search_span : StartArgs
search_span = record {
  name = "elasticsearch.query";
  service = none;
  resource = none;
  span_type = none;
}

module _ {A : Type 0} where
  -- what is tagged when the call has ended
  abbrev pub end_tags : Outcome A → ℕ → Result A → Exec World Unit
  end_tags outcome r (raised e) = tag_status r (outcome.error_status e)
  end_tags outcome r (ok result) = do
    modify (set_took r (outcome.took result))
    tag_status r (outcome.status result)

module _ {X A : Type 0} where
  abbrev pub ended : Result A → Result (Unit {0}) × Program X → Result A × Program X
  ended res (ok u, p) = (res, p)
  ended res (raised e, p) = (raised e, p)

  pub perform : Outcome A → ℕ → Exec X A → Exec (Program X) A
  perform outcome r func p =
      let (res, p') = on_rest func p in ended res (on_tracing (end_tags outcome r res) p')

  -- The body of the span; a trace that is not sampled is not tagged.
  pub in_search_span :
      Readings → Search → Outcome A → Option String → Exec X A → ℕ → Exec (Program X) A
  in_search_span at search outcome service func r p =
      if (p.tracing.spans r).sampled
      then (on_tracing (search_tags at search service r) >> perform outcome r func) p
      else on_rest func p

  abbrev pub search_found :
      Readings → Search → Outcome A → Exec X A → Option Pin → Exec (Program X) A
  search_found at search outcome func none p = on_rest func p
  search_found at search outcome func (some pin) p =
      with_span at search_span (in_search_span at search outcome (service p.pins pin) func) p

  -- `_perform_request`
  pub perform_request : Readings → Search → Outcome A → Exec X A → Exec (Program X) A
  perform_request at search outcome func = do
    pin ← enabled_pin search.transport
    search_found at search outcome func pin
