-- ===== src/Service.antt =====
-- sidecar/src/playerbots_llm/app.py: one request of the worldserver, from the configuration's limits to the
-- encoded answer. The generation lock makes requests run one after another.
pub mod Config
pub mod Bridge
pub mod Calls
pub mod Honest
pub mod Lanes
pub mod Profiles
pub mod Pipelines
pub mod Refusals
pub mod Replying
pub mod Chat
pub mod Answers
pub mod Safety
pub mod Serving
pub mod Silence
pub mod Accounting
pub mod Failures
