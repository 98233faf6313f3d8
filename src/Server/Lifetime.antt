-- ===== src/Server/Lifetime.antt =====
-- quic_server.cc: the constructor, and `Shutdown`.
use cmuquic.Prelude.{ℕ, ◌*◌, false, Option, some, ◌==◌, if◌then◌else◌, ◌>>=◌}
use cmuquic.Prelude.Int.{ℤ, pos, negsuc}
use cmuquic.Net.{Windows}
use cmuquic.Epoll.Data.{init}
use cmuquic.Dispatcher.Data.{Dispatcher, Host, world, with_world}
use cmuquic.Dispatcher.Writing.{shutdown}
use cmuquic.Server.Listening.{QuicServer}

-- The windows that the constructor sets; `least` is the library's least window.
unfoldable pub server_windows : ℕ → Windows → Windows
server_windows least config = record {
  stream = 30 * 1024;
  session = if config.session == least then 1 * 1024 * 1024 else config.session;
}

-- The constructor, as to the members that `Listen` sets.
unfoldable pub new_server : {W : Type 0} → W → QuicServer W
new_server w = record {
  epoll = init w;
  port = 0;
  fd = negsuc 0;
  overflow_supported = false;
  listening = false;
}

-- The default timeout of its epoll server, in microseconds.
unfoldable pub server_timeout : ℤ
server_timeout = pos (50 * 1000)

module _ {Time Delta W : Type 0} (H : Host Time Delta W) (close : W → ℤ → W) where
  -- `Shutdown`, with the socket's descriptor: the dispatcher, and the descriptor. `close` is the
  -- system's, and not the stack's.
  unfoldable pub shutdown_server :
      Dispatcher Time Delta W → ℤ → Option (Dispatcher Time Delta W × ℤ)
  shutdown_server d fd = shutdown H d >>= λ d'. some (with_world (close (world d') fd) d', negsuc 0)
