-- ===== src/Tests/Clients/Opening.antt =====
-- The theorems on the start and the end of a client.
use cmuquic.Prelude.{◌≡◌, false, not, some, Runs}
use cmuquic.Socket.{af_inet}
use cmuquic.Client.Opening.{initialize}
use cmuquic.Client.Opening.Initialized.{Initialized, initialize-Initialized}
use cmuquic.Client.Lifetime.{disconnect}
use cmuquic.Client.Lifetime.Closed.{Disconnected, StaysClosed, disconnect-Disconnected}
use cmuquic.Client.Lifetime.Twice.{disconnect-disconnect}
use cmuquic.Tests.Clients.{
  watched, calls, objects, client_calls, settings, fresh, poll-PollLaws, poll-PollKeeps,
  calls-CallLaws, objects-ObjectLaws, client_calls-ClientLaws, fresh-IsReady, online,
  online-IsReady,
}

initialize-Initialized_example :
    Runs
      (Initialized watched settings 16384 fresh)
      (initialize client_calls settings calls 16384 af_inet fresh)
initialize-Initialized_example =
    initialize-Initialized watched client_calls settings calls 16384 client_calls-ClientLaws
      poll-PollLaws calls-CallLaws.rests af_inet fresh fresh-IsReady

fresh-StaysClosed : StaysClosed objects client_calls calls
fresh-StaysClosed = record {
  polls = λ x. poll-PollKeeps (λ a. not a.world.shut ≡ false) (λ s fd b i. i);
  closes = λ x a fd h. h;
}

disconnect-Disconnected_example :
    Runs (Disconnected watched objects online) (disconnect objects client_calls calls online)
disconnect-Disconnected_example =
    disconnect-Disconnected watched objects client_calls calls objects-ObjectLaws
      client_calls-ClientLaws poll-PollLaws calls-CallLaws.rests fresh-StaysClosed online
      online-IsReady

disconnect-disconnect_example :
    Runs
      (λ r'. disconnect objects client_calls calls r' ≡ some r')
      (disconnect objects client_calls calls online)
disconnect-disconnect_example =
    disconnect-disconnect watched objects client_calls calls objects-ObjectLaws
      client_calls-ClientLaws poll-PollLaws calls-CallLaws.rests fresh-StaysClosed online
      online-IsReady
