-- ===== src/Epoll/Data/Ready.antt =====
-- The ready list of epoll_server.cc as a list of descriptors.
use cmuquic.Prelude.{
  ℕ, ◌+◌, ◌≡◌, refl, Bool, true, false, List, [], ◌∷◌, ◌==◌, if◌then◌else◌, length, arith,
}

unfoldable pub has : ℕ → List ℕ → Bool
has q [] = false
has q (x ∷ xs) = if x == q then true else has q xs

-- `LIST_REMOVE`.
unfoldable pub delete : ℕ → List ℕ → List ℕ
delete q [] = []
delete q (x ∷ xs) = if x == q then xs else x ∷ delete q xs

abbrev pub IsSimple : List ℕ → Type 0
IsSimple [] = Unit {0}
IsSimple (x ∷ xs) = (has x xs ≡ false) × IsSimple xs

pub has-delete_le : (k q : ℕ) (xs : List ℕ) → has q xs ≡ false → has q (delete k xs) ≡ false
unfolding has delete
has-delete_le k q [] h = refl
has-delete_le k q (x ∷ xs) h = ground (arith, has-delete_le k q xs)

pub has-delete :
    (k q : ℕ) (xs : List ℕ)
    → IsSimple xs
    → has q (delete k xs) ≡ (if k == q then false else has q xs)
unfolding has delete
has-delete k q [] s = ground arith
has-delete k q (x ∷ xs) s = ground (arith, has-delete k q xs s.1)

pub delete-IsSimple : (k : ℕ) (xs : List ℕ) → IsSimple xs → IsSimple (delete k xs)
unfolding delete
delete-IsSimple k [] s = tt
delete-IsSimple k (x ∷ xs) s = ground (arith, delete-IsSimple k xs s.1, has-delete_le k x xs)

pub length-delete :
    (k : ℕ) (xs : List ℕ) → length (delete k xs) + (if has k xs then 1 else 0) ≡ length xs
unfolding has delete
length-delete k [] = refl
length-delete k (x ∷ xs) = ground (arith, length-delete k xs)
