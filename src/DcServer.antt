-- ===== src/DcServer.antt =====
-- fs/backend_sim.cpp and fs/backend_real.cpp: the two implementations of the interface DCServer, on a
-- directory of files and on the network client.
pub mod Sim
pub mod Net
