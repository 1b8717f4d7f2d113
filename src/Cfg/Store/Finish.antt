-- ===== src/Cfg/Store/Finish.antt =====
-- handler.hpp: `update` ends.
