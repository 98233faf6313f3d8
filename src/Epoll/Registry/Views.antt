-- ===== src/Epoll/Registry/Views.antt =====
-- epoll_server.cc: a new server is consistent.
use cmuquic.Prelude.{ℕ, ◌≡◌, refl, Bool, false, none, arith}
use cmuquic.Prelude.Assoc.{lookup}
use cmuquic.Epoll.Data.{init}
use cmuquic.Epoll.Data.Ready.{has}
use cmuquic.Epoll.Registry.Keeps.{Consistent}

module _ {W : Type 0} (watched : W → ℕ → Bool) where
  -- A new server is consistent, if the stack watches nothing for it.
  pub init-Consistent : (w : W) → ((q : ℕ) → watched w q ≡ false) → Consistent watched none (init w)
  unfolding init lookup has
  init-Consistent w h = record {
    distinct = tt;
    ready = tt;
    tmp = tt;
    size = refl;
    slots = λ q. ground (arith, h q);
  }
