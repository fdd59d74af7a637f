-- ===== src/Assistant.antt =====
-- backend/apps/ai_assistant/services.py: what leaves for the language model, and what comes back.
pub mod Text
pub mod Placeholder
pub mod Substitution
pub mod RoundTrip
pub mod Mapping
pub mod Faithful
pub mod Collection
pub mod Rehydration
pub mod Hiding
pub mod Payload
pub mod Conversation
pub mod Turns
pub mod Usage
pub mod Counting
pub mod Jobs
