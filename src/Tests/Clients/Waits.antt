-- ===== src/Tests/Clients/Waits.antt =====
-- The theorem on the wait for the handshake.
use cmuquic.Prelude.{
  ℕ, ◌-◌, ◌<◌, ◌≡◌, refl, ap, ◌&&◌, true, false, not, Option, none, some, List, ◌==◌, Runs, arith,
  of_eq_some, >>=-eq-some,
}
use cmuquic.Cycle.Invariants.{WaitTakes, wait_for_events_and_execute_callbacks-Keeps}
use cmuquic.Client.Data.{Running, alarms}
use cmuquic.Client.Lifetime.{start_connect, wait_for_events, connect}
use cmuquic.Client.Lifetime.Connects.{Nears, Connected, connect-Connected}
use cmuquic.Tests.Clients.{
  World, watched, calls, objects, fresh, poll-PollKeeps, calls-CallLaws, objects-ObjectLaws,
  fresh-IsReady,
}

abbrev waits_left : Running World → ℕ
waits_left r = (alarms r).world.left

-- One wait of the client is one step of the handshake.
waits_left-WaitTakes :
    (n : ℕ) → WaitTakes (λ (w : World). w.left ≡ n) (λ (w : World). w.left ≡ n - 1) calls
waits_left-WaitTakes n = record {
  before = λ w j. j;
  wait = λ w ms r j e.
      of_eq_some (λ (x : World × List (ℕ × ℕ)). x.0.left ≡ n - 1) refl e (ap (λ k. k - 1) j);
  clock = λ w i. i;
  polls = poll-PollKeeps (λ a. a.world.left ≡ n - 1) (λ s fd b i. i);
  fires = λ now s a i. i;
}

pending_left :
    (o : Option ℕ) (w : World)
    → elim o [ none ↦ false | some x ↦ not (w.left == 0) && not w.shut ] ≡ true
    → 0 < w.left
pending_left none w h = absurd (cc)
pending_left (some x) w h = ground (arith, h)

waits_left-Nears : Nears watched objects calls waits_left
unfolding wait_for_events
waits_left-Nears r r' (v, free) pending e =
    let n = waits_left r in
    let (s, run, last) = >>=-eq-some _ (λ s. some (record r { epoll = s })) e in
    let less =
      wait_for_events_and_execute_callbacks-Keeps (λ (w : World). w.left ≡ n)
        (λ (w : World). w.left ≡ n - 1) calls (waits_left-WaitTakes n) r.epoll s free refl run in
    let left = of_eq_some (λ (x : Running World). waits_left x ≡ n - 1) refl last less in
    omega (arith, left, pending_left r.client.session (alarms r).world pending)

connect-Connected_example :
    Runs
      (Connected watched objects calls (start_connect objects fresh).client)
      (connect objects calls 4 fresh)
unfolding start_connect fresh
connect-Connected_example =
    connect-Connected watched (λ a. false) objects calls objects-ObjectLaws calls-CallLaws
      waits_left 4 fresh waits_left-Nears (fresh-IsReady, refl) (omega arith)
