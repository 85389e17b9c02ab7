-- ===== src/Lib.antt =====
-- oteltrace, the tracing library of the repository (oteltrace/), as a program makes and records traces
-- with it: spans, the contexts that collect them, the tracer that starts and records them, the
-- samplers that decide which traces are kept, and the writer's queue to the exporter.
--
-- How the parts interact. `Tracer.start_span` makes a span, has the sampler decide for the root of a
-- new trace, tags it and adds it to a context. `Span.finish` marks it and has its context count it;
-- `Tracer.record` then takes the trace from the context if all its spans are finished, or some of them
-- with partial flushing, and hands it to the writer's queue, which a thread flushes to the API.
--
-- The files, and what of the repository each is about:
--   Value           the values of tags and metrics, oteltrace/constants.py, oteltrace/ext/priority.py
--   RateLimiter     oteltrace/internal/rate_limiter.py; Bounds: the tokens; Counts: the effective rate
--   Sampler         oteltrace/sampler.py, what depends on rates, rules and trace ids alone; Hashing: the
--                   hash of trace ids and the thresholds; Rules, Services: which rule or rate applies
--   Writer          oteltrace/internal/writer.py; Queue: class Q; Filtered, Flush:
--                   the filters and flush_queue
--   World           the objects: heaps of spans, contexts and service samplers, the settings, the tracer;
--                   Keeps: what tags and sampling leave alone
--   Span            oteltrace/span.py but for finish; Tags, Plain, Keeps: what tags do and leave alone
--   Context         oteltrace/context.py; Consistent: the agreement of contexts and spans; Adding,
--                   Closing, Taking, Left, Whole, Root: what add_span, close_span and get do to it
--   Sampling        oteltrace/sampler.py, the `sample` methods, which write to a span and its context
--   Tracer          oteltrace/tracer.py, start_span; Parents, Remote: what a span takes over from its
--                   parent, or from the context of another process; Roots: a root span;
--                   Ready, Keeps: the agreement
--   Recorder        oteltrace/tracer.py, the rest of class Tracer, Span.finish, and the active context of
--                   oteltrace/provider.py and oteltrace/internal/context_manager.py; Invariant: the calls
--                   of a program as a step relation; Complete, Again: what finish does; Begun: trace in
--                   an active context
--   Propagation     oteltrace/propagation/datadog.py; Digits: int and str; RoundTrip: inject, then extract;
--                   Distributed: a trace that goes on in another process; B3: oteltrace/propagation/b3.py
--                   (Hex: the digits, RoundTrip: inject, then extract); W3c: oteltrace/propagation/w3c.py
--                   (Tracestate, Members, State: the trace state; Total: headers of any
--                   content)
--   Filters         oteltrace/filters.py; Urls: which traces the writer then sends
--   Hooks           oteltrace/settings/hooks.py; Calls: which functions a hook calls
--   Config          oteltrace/settings/config.py, integration.py; Dicts: nested dicts; Merge:
--                   oteltrace/utils/merge.py; Env: get_env and asbool of oteltrace/utils/formats.py; Http:
--                   oteltrace/settings/http.py; Added: what an integration is configured with
--   Headers         oteltrace/http/headers.py; Names: the tags' names; Stored: which tags are stored
--   Pin             oteltrace/pin.py; Own: the pin of an object; Overriding: override
--   Traced          code that runs in a span: oteltrace/span.py, Span.__exit__, and oteltrace/tracer.py, wrap;
--                   Wrapped: how it ends
--   Contrib         integrations of libraries; Passes: when a call is transparent; Dbapi:
--                   oteltrace/contrib/dbapi and oteltrace/ext/sql.py; Requests:
--                   oteltrace/contrib/requests/connection.py; Elasticsearch:
--                   oteltrace/contrib/elasticsearch; Redis: oteltrace/contrib/redis; Celery:
--                   oteltrace/contrib/celery, signals.py; Celery/Spans: utils.py
--   Logger          oteltrace/internal/logger.py, the rate limit of log records
--   Text            the methods of str that these use
--   Examples        worlds with few spans, and the theorems applied to them
--   Common          lists, integers, dictionaries and exceptions; Members: lists of references
--
-- The model. Objects that are shared by reference (a span and its context and parent, the tracer's
-- samplers) are numbers into heaps of the world, so an update is seen through every reference. A
-- method is a function from a world to its result, or the exception that it raised, and the world with
-- all that was written before it raised. The theorem on sequences of calls is about whole calls one
-- after the other, in any order; calls of several threads that overlap, `finish` or `start_span`
-- between two of their uses of the context's lock, are not covered by it. What a call reads from
-- outside, the clock, the random ids, the process id and the random slot of a full queue, are
-- arguments of it. A library that is instrumented, and the program that uses it, are an action on a
-- state of any type.
--
-- Numbers. Times are whole nanoseconds. Rates, durations and metrics, which are floats in the program,
-- are exact, and rounding is not modelled; an integer that is too large for a float is left out, and
-- so is any value for which `float` raises another error than TypeError and ValueError. The hash of a
-- trace id is exact, modulo 2^64. Texts of headers and variables are ASCII. The loops are recursions
-- on their lists; only the digits of a number n are written with fuel, n + 1, which is enough by the
-- theorems that read them back.
--
-- Not modelled: log lines; the statistics of the writer and sizes in bytes; a put that finds the queue
-- emptied between its failure and its retry; runtime workers, which only log; samplers that a user
-- writes; the wrappers of coroutines; formatting of spans for output; objects that answer for their
-- pin themselves; the other integrations under oteltrace/contrib, and what replaces the methods of
-- libraries; the vendored code, and the exporter to the OpenTelemetry API, which builds objects of
-- packages that are not here.
pub mod Common
pub mod Text
pub mod RateLimiter
pub mod Value
pub mod Sampler
pub mod Writer
pub mod World
pub mod Span
pub mod Context
pub mod Sampling
pub mod Tracer
pub mod Recorder
pub mod Propagation
pub mod Logger
pub mod Filters
pub mod Hooks
pub mod Config
pub mod Headers
pub mod Pin
pub mod Traced
pub mod Contrib
pub mod Examples
