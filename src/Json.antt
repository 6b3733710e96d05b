-- ===== src/Json.antt =====
-- The values of JSON documents and of Python's `dict`, `list`, `str`, numbers and `None`: task
-- arguments, tool outputs, token claims and policy replies (app/agent.py, app/auth.py, app/policy.py).
-- A dict keeps its first entry for a key, and a float is its 64-bit pattern.
mod Values
pub use Values.*
