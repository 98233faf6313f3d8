-- ===== src/Blocked/Laws.antt =====
-- The write-blocked list of quic_dispatcher.cc: membership under its operations.
use cmuquic.Prelude.{◌≤◌, ◌≡◌, refl, true, false, List, [], ◌∷◌, if◌then◌else◌, arith, length}
use cmuquic.Net.{PacketWriter}
use cmuquic.Blocked.{
  BlockedWriter, time_wait_manager, connection, same, member, insert, remove, Channel,
  on_write_blocked,
}

-- No writer twice.
abbrev pub IsUnique : List BlockedWriter → Type 0
IsUnique [] = Unit {0}
IsUnique (x ∷ xs) = (member x xs ≡ false) × IsUnique xs

pub same_refl : (a : BlockedWriter) → same a a ≡ true
same_refl time_wait_manager = refl
same_refl (connection a) = ground arith

pub eq_of_same : (a b : BlockedWriter) → same a b ≡ true → a ≡ b
eq_of_same a b h = ground arith

pub same_comm : (a b : BlockedWriter) → same a b ≡ same b a
same_comm a b = ground arith

pub member-insert :
    (q b : BlockedWriter) (xs : List BlockedWriter)
    → member q (insert b xs) ≡ (if same b q then true else member q xs)
unfolding member insert
member-insert q b [] = refl
member-insert q b (x ∷ xs) =
    ground (arith, member-insert q b xs, eq_of_same x b, eq_of_same x q, same_refl q, same_refl b)

pub insert-IsUnique :
    (b : BlockedWriter) (xs : List BlockedWriter) → IsUnique xs → IsUnique (insert b xs)
unfolding member insert
insert-IsUnique b [] u = (refl, tt)
insert-IsUnique b (x ∷ xs) u =
    ground (arith, insert-IsUnique b xs u.1, member-insert x b xs, same_comm x b)

pub member-remove_le :
    (q b : BlockedWriter) (xs : List BlockedWriter)
    → member q xs ≡ false
    → member q (remove b xs) ≡ false
unfolding member remove
member-remove_le q b [] h = refl
member-remove_le q b (x ∷ xs) h = ground (arith, member-remove_le q b xs)

pub member-remove :
    (q b : BlockedWriter) (xs : List BlockedWriter)
    → IsUnique xs
    → member q (remove b xs) ≡ (if same b q then false else member q xs)
unfolding member remove
member-remove q b [] u = ground arith
member-remove q b (x ∷ xs) u =
    ground (arith, member-remove q b xs u.1, eq_of_same x b, eq_of_same b q, same_comm x q)

pub remove-IsUnique :
    (b : BlockedWriter) (xs : List BlockedWriter) → IsUnique xs → IsUnique (remove b xs)
unfolding member remove
remove-IsUnique b [] u = tt
remove-IsUnique b (x ∷ xs) u = ground (arith, remove-IsUnique b xs u.1, member-remove_le x b xs)

pub length-remove-le :
    (b : BlockedWriter) (xs : List BlockedWriter) → length (remove b xs) ≤ length xs
unfolding remove
length-remove-le b [] = omega arith
length-remove-le b (x ∷ xs) = ground (arith, length-remove-le b xs)

module _ {W : Type 0} (P : PacketWriter W) where
  -- The guard of `OnWriteBlocked`: a writer is queued exactly when the socket is blocked.
  pub member-on_write_blocked :
      (q b : BlockedWriter) (c : Channel W)
      → member q (on_write_blocked P b c).write_blocked_list ≡ (
          if P.is_write_blocked c.world
          then (if same b q then true else member q c.write_blocked_list)
          else member q c.write_blocked_list)
  unfolding on_write_blocked
  member-on_write_blocked q b c = ground (arith, member-insert q b c.write_blocked_list)

  pub on_write_blocked-IsUnique :
      (b : BlockedWriter) (c : Channel W)
      → IsUnique c.write_blocked_list
      → IsUnique (on_write_blocked P b c).write_blocked_list
  unfolding on_write_blocked
  on_write_blocked-IsUnique b c u = ground (arith, insert-IsUnique b c.write_blocked_list u)
