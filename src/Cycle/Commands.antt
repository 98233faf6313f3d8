-- ===== src/Cycle/Commands.antt =====
-- epoll_server.cc: the calls of a server at rest.
use cmuquic.Prelude.{ℕ, ◌≤◌, ◌≡◌, refl, none, List, [], ◌∷◌, length, Runs, arith}
use mathlib.Core.Path.{subst}
use mathlib.Core.Bool.{Bool}
use cmuquic.Epoll.Data.{EpollServer, Command}
use cmuquic.Epoll.Registry.Kernel.{PollLaws}
use cmuquic.Epoll.Loop.{obey}
use cmuquic.Epoll.Loop.Turns.{obey-Ends}
use cmuquic.Alarms.Data.{Alarms}
use cmuquic.Cycle.{Calls}
use cmuquic.Cycle.Events.{PollKeeps, obey-Keeps}
use cmuquic.Cycle.Executed.{AtRest, IsReady, watched_below}

none_left : (xs : List ℕ) → length xs ≤ 0 → xs ≡ []
none_left [] h = refl
none_left (x ∷ xs) h = absurd (omega (arith, h))

module _ {W : Type 0} (watched : W → ℕ → Bool) (C : Calls W)
    (L : PollLaws C.poll (watched_below watched)) (P : PollKeeps AtRest C.poll) where
  -- A call of a server at rest succeeds, and leaves it at rest.
  pub obey-IsReady :
      (c : Command) (s : EpollServer (Alarms W))
      → IsReady watched s
      → Runs (IsReady watched) (obey C.poll c s)
  obey-IsReady c s v =
      let (s', e, (d, t)) = obey-Ends C.poll (watched_below watched) L none c s v.descriptors in
      (
        s',
        e,
        record {
          descriptors = d;
          tmp = none_left s'.tmp_list (subst (λ xs. length s'.tmp_list ≤ length xs) v.tmp t);
          alarms = obey-Keeps AtRest C.poll P c s v.alarms s' e;
        },
      )
