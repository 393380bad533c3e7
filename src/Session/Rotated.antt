-- ===== src/Session/Rotated.antt =====
-- A form's token, also after the next key came in.

