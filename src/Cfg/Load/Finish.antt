-- ===== src/Cfg/Load/Finish.antt =====
-- handler.hpp: `load` returned.
