-- ===== src/Tests.antt =====
-- Concrete runs of the model, and each theorem that has hypotheses at concrete input.
mod Forms
mod Values
mod Requests
mod Admin
mod Editing
mod RowEditing
mod SigningIn
mod Panel
mod Home
