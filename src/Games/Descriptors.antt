-- ===== src/Games/Descriptors.antt =====
-- The game list closes the files that it opens: patches/source/games.c, lines 632 to 684, 752 to 858
-- and 1025 to 1054.
