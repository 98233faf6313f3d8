-- ===== src/Client/Lifetime/Events.antt =====
-- quic_client.cc: what `OnEvent` of the client reads, processes and writes.
use cmuquic.Prelude.{
  ℕ, ◌≡◌, refl, sym, ◌∙◌, ap, ◌⊎◌, inl, inr, bit_and, Bool, true, false, not, ◌&&◌, none, some,
  List, [], ◌∷◌, ◌++◌, ◌==◌, if◌then◌else◌, Bool-cases,
}
use mathlib.Core.Path.{subst}
use cmuquic.Prelude.Int.{ltb_ℤ, pos}
use cmuquic.Socket.{ReadResult}
use cmuquic.Alarms.Data.{Alarms}
use cmuquic.Server.{EventBits}
use cmuquic.Client.Data.{QuicClient, Objects}
use cmuquic.Client.Lifetime.{on_object, connected, read_and_process_packet, read_all, on_event}

module _ {W : Type 0} (O : Objects (Alarms W)) (c : QuicClient) (x : ℕ) where
  -- The packet of a read goes to the session.
  abbrev pub process_read : ReadResult → Alarms W → Alarms W
  process_read r a =
      O.process_udp_packet a x (record { address = r.self_address; port = c.client_address.port })
        r.peer_address r.buffer

  abbrev pub process_reads : List ReadResult → Alarms W → Alarms W
  process_reads [] a = a
  process_reads (r ∷ rs) a = process_reads rs (process_read r a)

  -- Each read finds the connection open, as the packets before it have left it, and succeeds.
  abbrev pub AreRead : List ReadResult → Alarms W → Type 0
  AreRead [] a = Unit {0}
  AreRead (r ∷ rs) a =
      (O.connected a x ≡ true)
      × (ltb_ℤ r.bytes_read (pos 0) ≡ false)
      × AreRead rs (process_read r a)

  abbrev pub FirstFails : List ReadResult → Type 0
  FirstFails [] = ⊥
  FirstFails (r ∷ rs) = ltb_ℤ r.bytes_read (pos 0) ≡ true

  -- Why no more is processed: no read is left, the connection is closed, or the next read fails.
  abbrev pub Stops : List ReadResult → Alarms W → Type 0
  Stops left a = (left ≡ []) ⊎ (O.connected a x ≡ false) ⊎ FirstFails left

  -- The loop of the reads: those that are processed, and those that are left.
  abbrev pub ReadUp : List ReadResult → Alarms W → Alarms W → Type 0
  ReadUp reads a a' =
      (taken : List ReadResult) × (left : List ReadResult) × (reads ≡ taken ++ left)
      × AreRead taken a
      × Stops left a'
      × (a' ≡ process_reads taken a)

module _ {W : Type 0} (O : Objects (Alarms W)) (c : QuicClient) (x : ℕ)
    (here : c.session ≡ some x) where
  connected-session : (a : Alarms W) → connected O c a ≡ O.connected a x
  unfolding connected
  connected-session a = ap (λ o. elim o [ none ↦ false | some y ↦ O.connected a y ]) here

  one_read :
      (r : ReadResult) (a : Alarms W)
      → ltb_ℤ r.bytes_read (pos 0) ≡ false
      → read_and_process_packet O c r a ≡ (true, process_read O c x r a)
  unfolding read_and_process_packet
  one_read r a ok = rw ok (ap (λ o. (true, on_object (λ a' y. process_read O c y r a') o a)) here)

  one_failed :
      (r : ReadResult) (a : Alarms W)
      → ltb_ℤ r.bytes_read (pos 0) ≡ true
      → read_and_process_packet O c r a ≡ (false, a)
  unfolding read_and_process_packet
  one_failed r a failed = rw failed refl

  -- One turn of the loop, by whether the connection is open and what the read gives.
  abbrev turn : Bool → Bool × Alarms W → ReadResult → List ReadResult → Alarms W → Alarms W
  turn on p r rs a =
      (if on then (if p.0 then read_all O c rs p.1 else (rs, p.1)) else (r ∷ rs, a)).1

  read_all-ReadUp :
      (reads : List ReadResult) (a : Alarms W) → ReadUp O c x reads a (read_all O c reads a).1
  unfolding read_all
  read_all-ReadUp [] a = ([], [], refl, tt, inl refl, refl)
  read_all-ReadUp (r ∷ rs) a =
      let p = read_and_process_packet O c r a in
      elim (Bool-cases (O.connected a x)) [
        | inl on ↦
            let e : turn (connected O c a) p r rs a ≡ turn true p r rs a =
              ap (λ b. turn b p r rs a) (connected-session a ∙ on) in
            elim (Bool-cases (ltb_ℤ r.bytes_read (pos 0))) [
              | inl failed ↦
                  let same : turn (connected O c a) p r rs a ≡ a =
                    e ∙ ap (λ q. turn true q r rs a) (one_failed r a failed) in
                  ([], r ∷ rs, refl, tt, inr (inr failed), same)
              | inr ok ↦
                  let same : turn (connected O c a) p r rs a
                      ≡ (read_all O c rs (process_read O c x r a)).1 =
                    e ∙ ap (λ q. turn true q r rs a) (one_read r a ok) in
                  let (taken, left, parts, good, stops, result) =
                    read_all-ReadUp rs (process_read O c x r a) in
                  (
                    r ∷ taken,
                    left,
                    ap (λ l. r ∷ l) parts,
                    (on, ok, good),
                    subst (Stops O c x left) (sym same) stops,
                    same ∙ result,
                  )
            ]
        | inr off ↦
            let same : turn (connected O c a) p r rs a ≡ a =
              ap (λ b. turn b p r rs a) (connected-session a ∙ off) in
            ([], r ∷ rs, refl, tt, inr (inl (ap (λ b. O.connected b x) same ∙ off)), same)
      ]

module _ {W : Type 0} (O : Objects (Alarms W)) (bits : EventBits) (c : QuicClient) (x w : ℕ) where
  -- The reading part of an event.
  abbrev pub HasRead : ℕ → List ReadResult → Alarms W → Alarms W → Type 0
  HasRead in_events reads a a' =
      ((bit_and in_events bits.epollin == 0) ≡ true) × (a' ≡ a)
      ⊎ ((bit_and in_events bits.epollin == 0) ≡ false) × ReadUp O c x reads a a'

  -- The writing part of an event.
  abbrev pub HasWritten : ℕ → Alarms W → Alarms W → Type 0
  HasWritten in_events a a' =
      (O.connected a x ≡ true)
        × ((bit_and in_events bits.epollout == 0) ≡ false)
        × (a' ≡ O.on_can_write (O.set_writable a w) x)
      ⊎ ((O.connected a x ≡ false) ⊎ ((bit_and in_events bits.epollout == 0) ≡ true)) × (a' ≡ a)

  -- What one event does.
  abbrev pub HasHandled : ℕ → List ReadResult → Alarms W → Alarms W → Type 0
  HasHandled in_events reads a a'' =
      (a' : Alarms W) × HasRead in_events reads a a' × HasWritten in_events a' a''

  on_event-HasRead :
      c.session ≡ some x
      → (in_events : ℕ) (reads : List ReadResult) (a : Alarms W)
      → HasRead in_events reads a
          (if not (bit_and in_events bits.epollin == 0) then (read_all O c reads a).1 else a)
  on_event-HasRead here in_events reads a =
      elim (Bool-cases (bit_and in_events bits.epollin == 0)) [
        | inl quiet ↦ inl (quiet, ap (λ b. if not b then (read_all O c reads a).1 else a) quiet)
        | inr readable ↦
            let same = ap (λ b. if not b then (read_all O c reads a).1 else a) readable in
            inr (
              readable,
              subst (ReadUp O c x reads a) (sym same) (read_all-ReadUp O c x here reads a),
            )
      ]

  -- When the socket of a client with a session and a writer has an event, the client processes reads only
  -- if the socket is readable, and then as long as the connection is open and a read succeeds: the packets go
  -- to the session in their order, and what follows is left when the connection is closed or a read
  -- fails. After that, if the connection is still open and the socket is writable, the writer is
  -- unblocked and then the connection writes; otherwise nothing is written.
  pub on_event-HasHandled :
      (in_events : ℕ) (reads : List ReadResult) (a : Alarms W)
      → c.session ≡ some x
      → c.writer ≡ some w
      → HasHandled in_events reads a (on_event O bits c in_events reads a)
  unfolding on_event
  on_event-HasHandled in_events reads a here writer =
      let a' = if not (bit_and in_events bits.epollin == 0) then (read_all O c reads a).1 else a in
      let on = connected-session O c x here a' in
      let written : on_object O.on_can_write c.session (on_object O.set_writable c.writer a')
          ≡ O.on_can_write (O.set_writable a' w) x =
        ap (λ o. on_object O.on_can_write o (on_object O.set_writable c.writer a')) here
        ∙ ap (λ o. O.on_can_write (on_object O.set_writable o a') x) writer in
      let choose = λ (b quiet : Bool).
        if b && not quiet
        then on_object O.on_can_write c.session (on_object O.set_writable c.writer a')
        else a' in
      let quiet = bit_and in_events bits.epollout == 0 in
      (
        a',
        on_event-HasRead here in_events reads a,
        elim (Bool-cases (O.connected a' x)) [
          | inl online ↦ elim (Bool-cases quiet) [
            | inl silent ↦
                inr (inr silent, ap (λ b. choose b quiet) (on ∙ online) ∙ ap (choose true) silent)
            | inr writable ↦ inl (
              online,
              writable,
              ap (λ b. choose b quiet) (on ∙ online) ∙ ap (choose true) writable ∙ written,
            )
          ]
          | inr closed ↦ inr (inl closed, ap (λ b. choose b quiet) (on ∙ closed))
        ],
      )
