-- ===== src/Life/Bounds.antt =====
-- What the threads of cw9/life.c read and write lies inside the two grids.
