-- ===== src/Contrib.antt =====
-- oteltrace/contrib/: the instrumentation of libraries. What a library does, and how it shows its
-- connections, is a parameter.
pub mod Dbapi
pub mod Requests
pub mod Elasticsearch
pub mod Redis
pub mod Celery
pub mod Passes
