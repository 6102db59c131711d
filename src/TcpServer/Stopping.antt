-- ===== src/TcpServer/Stopping.antt =====
-- How a server of src/net/tcp/TcpServer.cpp stops, and what becomes of its connections.
use libsaf.Common.{ℕ, ◌≡◌, List, [], ◌∷◌, ◌++◌, none}
use libsaf.Server.{Server, Posted}
use libsaf.Acceptor
use libsaf.TcpServer.{TcpServer}
use libsaf.TcpServer.Serving.{IsStopped}
use libsaf.TcpServer.Closing.{Closing}

-- The server has stopped.
pub record Stopped (fd : ℕ) (s s' : TcpServer) : Type 0 where
  pub stopped : IsStopped s'
  pub emptied : s'.server.connections ≡ []
  pub new : List Posted
  pub posted : s'.server.posted ≡ s.server.posted ++ new
  pub connections : Closing s s'.server.peers s'.links s.server.connections new
  pub socket : s'.acceptor.socket ≡ none
  pub closed : s'.acceptor.closed ≡ s.acceptor.closed ++ fd ∷ []
