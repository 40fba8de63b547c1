-- ===== src/Validation/Undefined.antt =====
-- Undefined behaviour of `ValidateHeader`.
