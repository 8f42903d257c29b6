-- ===== src/Forms.antt =====
-- app/modules/forms/service.py: the forms and the trees of their fields.
pub mod Acyclic
pub mod Outcome
pub mod Parents
pub mod Placing
pub mod Resolve
pub mod Schemas
mod Tests
pub mod Trees
