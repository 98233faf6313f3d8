-- ===== src/Dispatcher/Writing/Progress.antt =====
-- quic_dispatcher.cc: `OnCanWrite` ends.
use cmuquic.Prelude.{
  ℕ, zero, suc, ◌≤◌, ◌<◌, ◌≡◌, refl, true, some, List, [], ◌∷◌, arith, ◌⊎◌, inl, inr, Runs,
  Runs->>=, Runs-if, length,
}
use cmuquic.Blocked.{BlockedWriter, time_wait_manager, connection, member}
use cmuquic.TimeWait.Wire
use cmuquic.TimeWait.Wire.{flush}
use cmuquic.TimeWait.Wire.Pending.{on_can_write-IsQueued, flush-IsUnique}
use cmuquic.TimeWait.Wire.Progress.{flush-SendSettles}
use cmuquic.Dispatcher.Data.{Dispatcher, Host, world, with_world, without_first}
use cmuquic.Dispatcher.Invariant.{Valid, IsValid, Laws}
use cmuquic.Dispatcher.Closing.Blocking.{BlockingLaws, NeverUnblocks, waiting, react-Settled}
use cmuquic.Dispatcher.Writing.{resume, write_round, write_loop, on_can_write}

module _ {Time Delta W : Type 0} (k : ℕ) (H : Host Time Delta W) where
  -- How the loop ends.
  abbrev pub Rests : Dispatcher Time Delta W → Type 0
  Rests d' =
      IsValid k d'
      × ((d'.channel.write_blocked_list ≡ []) ⊎ (H.env.writer.is_write_blocked (world d') ≡ true))

module _ {Time Delta W : Type 0} (k : ℕ) (H : Host Time Delta W) (L : Laws k H) (B : BlockingLaws H)
    (never : (w : W) (a : ℕ) → NeverUnblocks H w (H.library.connection_on_can_write w a)) where
  -- A writer at the head of the list has its turn.
  abbrev Resumed : ℕ → Dispatcher Time Delta W → Type 0
  Resumed n d' =
      IsValid k d' × ((H.env.writer.is_write_blocked (world d') ≡ true) ⊎ (waiting H d' ≤ n))

  resume-Runs :
      (b : BlockedWriter) (rest : List BlockedWriter) (d : Dispatcher Time Delta W)
      → Valid k d.session_map d.time_wait (b ∷ rest) d.supported_versions
      → Runs (Resumed (length rest)) (resume H b (without_first rest d))
  unfolding resume Wire.on_can_write member
  resume-Runs time_wait_manager rest d v =
      let c = (without_first rest d).channel in
      let queue = d.time_wait.pending_packets_queue in
      let r = Wire.on_can_write H.env d.time_wait c in
      let t = flush-SendSettles H.env queue c in
      let valid : Valid k d.session_map r.0 r.1.write_blocked_list d.supported_versions = record {
        distinct = v.distinct;
        keyed = v.keyed;
        bounded = record { distinct = v.bounded.distinct; within = v.bounded.within };
        apart = v.apart;
        unique = flush-IsUnique H.env queue c v.unique.1;
        queued = on_can_write-IsQueued H.env L.writer d.time_wait c;
        supports = v.supports;
      } in
      (record (without_first rest d) { time_wait = r.0; channel = r.1 }, refl, (valid, t.fewer))
  resume-Runs (connection a) rest d v =
      let d' = without_first rest d in
      let valid : IsValid k d' = record {
        distinct = v.distinct;
        keyed = v.keyed;
        bounded = v.bounded;
        apart = v.apart;
        unique = v.unique.1;
        queued = ground (arith, v.queued);
        supports = v.supports;
      } in
      let (d'', e, (v', t)) =
        react-Settled k H L B (H.library.connection_on_can_write (world d') a) d'
          (never (world d') a) valid in
      (d'', e, (v', t.fewer))

  abbrev Ends : ℕ → Type 0
  Ends fuel =
      (d : Dispatcher Time Delta W)
      → IsValid k d
      → 0 < fuel
      → (H.env.writer.is_write_blocked (world d) ≡ true) ⊎ (waiting H d < fuel)
      → Runs (Rests k H) (write_loop H fuel d)

  write_round-Runs :
      (fuel : ℕ) (list : List BlockedWriter) (d : Dispatcher Time Delta W)
      → Ends fuel
      → d.channel.write_blocked_list ≡ list
      → IsValid k d
      → (H.env.writer.is_write_blocked (world d) ≡ true) ⊎ (length list < suc fuel)
      → Runs (Rests k H) (write_round H (write_loop H fuel) list d)
  write_round-Runs fuel [] d ih e v h = (d, refl, (v, inl e))
  write_round-Runs fuel (b ∷ rest) d ih e v h =
      Runs-if (Rests k H) (H.env.writer.is_write_blocked (world d)) (some d) _
        (λ blocked. (d, refl, (v, inr blocked)))
        (λ free.
          let few : length rest < fuel = ground (arith, h) in
          let v' : Valid k d.session_map d.time_wait (b ∷ rest) d.supported_versions = rw e at v in
          Runs->>= (Resumed (length rest)) (Rests k H) _ _ (resume-Runs b rest d v')
            (λ d' q. ih d' q.0 (omega arith) (ground (arith, q.1))))

  write_loop-Runs : (fuel : ℕ) → Ends fuel
  unfolding write_loop
  write_loop-Runs zero d v p h = absurd (omega arith)
  write_loop-Runs (suc fuel) d v p h =
      write_round-Runs fuel d.channel.write_blocked_list d (write_loop-Runs fuel) refl v h

  -- `OnCanWrite` ends, when the socket becomes writable from a valid dispatcher.
  pub on_can_write-Runs :
      (d : Dispatcher Time Delta W) → IsValid k d → Runs (Rests k H) (on_can_write H d)
  unfolding on_can_write
  on_can_write-Runs d v =
      write_loop-Runs (suc (waiting H d)) (with_world (H.env.writer.set_writable (world d)) d) v
        (omega arith) (inr (omega arith))
