-- ===== src/Acceptor/Reachable.antt =====
-- The steps of the threads of src/network/websocket_acceptor.cpp and what holds at every time, step by step.
use tibia_login_orig.Acceptor.{Acceptor}
use tibia_login_orig.Acceptor.Step.{Step}
