-- ===== src/Entry/Bounds.antt =====
-- The limits of the size and of the number of elements hold while elements are saved.
