-- ===== src/Client/Lifetime/Twice.antt =====
-- quic_client.cc: `Disconnect` twice, as by the destructor.
use cmuquic.Prelude.{ℕ, ◌≡◌, Bool, some, Runs}
use cmuquic.Epoll.Registry.Kernel.{PollLaws}
use cmuquic.Alarms.Data.{Alarms}
use cmuquic.Cycle.{Calls}
use cmuquic.Cycle.Events.{PollKeeps}
use cmuquic.Cycle.Executed.{AtRest, IsReady, watched_below}
use cmuquic.Client.Data.{Objects, ClientCalls, Running}
use cmuquic.Client.Opening.Outcome.{ClientLaws}
use cmuquic.Client.Lifetime.{disconnect}
use cmuquic.Client.Lifetime.Closed.{ObjectLaws, StaysClosed, disconnect-Disconnected}
use cmuquic.Client.Lifetime.Connects.{disconnect-Disconnected_again}

module _ {W : Type 0} (watched : W → ℕ → Bool) (O : Objects (Alarms W)) (K : ClientCalls W)
    (C : Calls W) (OL : ObjectLaws watched O) (L : ClientLaws K watched)
    (PL : PollLaws C.poll (watched_below watched)) (PK : PollKeeps AtRest C.poll)
    (SC : StaysClosed O K C) where
  -- `Disconnect` returns from an epoll server at rest, and another `Disconnect` after it, such as the
  -- destructor's, returns too and changes nothing.
  pub disconnect-disconnect :
      (r : Running W)
      → IsReady watched r.epoll.state
      → Runs (λ r'. disconnect O K C r' ≡ some r') (disconnect O K C r)
  disconnect-disconnect r v =
      let (r', run, d) = disconnect-Disconnected watched O K C OL L PL PK SC r v in
      (r', run, disconnect-Disconnected_again watched O K C r r' d)
