-- ===== src/Dispatcher/Writing/Turns.antt =====
-- quic_dispatcher.cc: the turns of the writers in `OnCanWrite`.
use cmuquic.Prelude.{
  ℕ, zero, suc, ◌≡◌, refl, ◌⊎◌, inl, inr, true, false, some, List, [], ◌∷◌, Runs, Given, Given-some,
  Given->>=, Given-if,
}
use cmuquic.Blocked.{BlockedWriter, time_wait_manager, connection}
use cmuquic.TimeWait.Wire
use cmuquic.TimeWait.Wire.{flush}
use cmuquic.Dispatcher.Data.{Dispatcher, Host, world, with_world, without_first}
use cmuquic.Dispatcher.Invariant.{IsValid, Laws}
use cmuquic.Dispatcher.Closing.{react}
use cmuquic.Dispatcher.Closing.Blocking.{BlockingLaws, NeverUnblocks}
use cmuquic.Dispatcher.Writing.{resume, write_round, write_loop, on_can_write}
use cmuquic.Dispatcher.Writing.Progress.{Rests, on_can_write-Runs}

module _ {Time Delta W : Type 0} (H : Host Time Delta W) where
  -- What a writer does in its turn: a connection has its `OnCanWrite` called, with the callbacks of the
  -- library; the time-wait list manager writes from its queue.
  abbrev pub HasTurn : BlockedWriter → Dispatcher Time Delta W → Dispatcher Time Delta W → Type 0
  HasTurn time_wait_manager d d' =
      let (tw, channel) = Wire.on_can_write H.env d.time_wait d.channel in
      record d { time_wait = tw; channel = channel } ≡ d'
  HasTurn (connection a) d d' = react H (H.library.connection_on_can_write (world d) a) d ≡ some d'

  -- The writers have their turns, each as it is the first of the list, and is taken from it, while the
  -- socket is not blocked; in the end no writer waits, or the socket is blocked.
  abbrev pub Turns : List BlockedWriter → Dispatcher Time Delta W → Dispatcher Time Delta W → Type 0
  Turns [] d d' =
      (d ≡ d')
      × ((d.channel.write_blocked_list ≡ []) ⊎ (H.env.writer.is_write_blocked (world d) ≡ true))
  Turns (b ∷ bs) d d' =
      (H.env.writer.is_write_blocked (world d) ≡ false)
      × (rest : List BlockedWriter) × (d.channel.write_blocked_list ≡ b ∷ rest)
      × (next : Dispatcher Time Delta W) × HasTurn b (without_first rest d) next
      × Turns bs next d'

  abbrev pub HadTurns : Dispatcher Time Delta W → Dispatcher Time Delta W → Type 0
  HadTurns d d' = (bs : List BlockedWriter) × Turns bs d d'

  resume-HasTurn :
      (b : BlockedWriter) (d : Dispatcher Time Delta W) → Given (HasTurn b d) (resume H b d)
  unfolding resume
  resume-HasTurn time_wait_manager d = Given-some (HasTurn time_wait_manager d) _ refl
  resume-HasTurn (connection a) d = λ d' e. e

  one_more :
      (b : BlockedWriter) (rest : List BlockedWriter) (d next d' : Dispatcher Time Delta W)
      → H.env.writer.is_write_blocked (world d) ≡ false
      → d.channel.write_blocked_list ≡ b ∷ rest
      → HasTurn b (without_first rest d) next
      → HadTurns next d'
      → HadTurns d d'
  one_more b rest d next d' free first turn (bs, turns) =
      (b ∷ bs, (free, rest, first, next, turn, turns))

  write_round-HadTurns :
      (fuel : ℕ) (list : List BlockedWriter) (d : Dispatcher Time Delta W)
      → ((x : Dispatcher Time Delta W) → Given (HadTurns x) (write_loop H fuel x))
      → d.channel.write_blocked_list ≡ list
      → Given (HadTurns d) (write_round H (write_loop H fuel) list d)
  write_round-HadTurns fuel [] d rounds e = Given-some (HadTurns d) d ([], (refl, inl e))
  write_round-HadTurns fuel (b ∷ rest) d rounds e =
      Given-if (HadTurns d) (H.env.writer.is_write_blocked (world d)) _ _
        (λ blocked. Given-some (HadTurns d) d ([], (refl, inr blocked)))
        (λ free.
          Given->>= (HasTurn b (without_first rest d)) (HadTurns d) _ _
            (resume-HasTurn b (without_first rest d))
            (λ next turn d' run. one_more b rest d next d' free e turn (rounds next d' run)))

  write_loop-HadTurns :
      (fuel : ℕ) (d : Dispatcher Time Delta W) → Given (HadTurns d) (write_loop H fuel d)
  unfolding write_loop
  write_loop-HadTurns zero d = λ d' e. absurd (cc)
  write_loop-HadTurns (suc fuel) d =
      write_round-HadTurns fuel d.channel.write_blocked_list d (write_loop-HadTurns fuel) refl

module _ {Time Delta W : Type 0} (k : ℕ) (H : Host Time Delta W) (L : Laws k H) (B : BlockingLaws H)
    (never : (w : W) (a : ℕ) → NeverUnblocks H w (H.library.connection_on_can_write w a)) where
  -- If only `SetWritable` unblocks the packet writer, then `OnCanWrite` ends, when the socket becomes
  -- writable from a valid dispatcher: as many rounds as writers waited are enough. After `SetWritable` it
  -- gives writers their turns, each as the first of the list, and taken from it, while the socket is
  -- not blocked: the `OnCanWrite` of a connection, or of the time-wait list manager. It leaves the dispatcher
  -- valid, and either no writer waits any more or the socket is blocked again.
  pub on_can_write-HadTurns :
      (d : Dispatcher Time Delta W)
      → IsValid k d
      → Runs
          (λ d'. Rests k H d' × HadTurns H (with_world (H.env.writer.set_writable (world d)) d) d')
          (on_can_write H d)
  unfolding on_can_write
  on_can_write-HadTurns d v =
      let (d', run, rests) = on_can_write-Runs k H L B never d v in
      (d', run, (rests, write_loop-HadTurns H _ _ d' run))
