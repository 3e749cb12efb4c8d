-- ===== src/Socket/Address.antt =====
-- `sockaddr_cmp` of library/src/socket/socket.cpp: an order of socket addresses.
pub mod Order
mod Tests
use networkio.Base.{
  ℕ, zero, suc, ◌≡◌, refl, Bool, true, false, List, [], ◌∷◌, ◌==◌, ltb, if◌then◌else◌, arith, ◌≢◌,
  eq_cases, ltb_cases, inl, inr, ◌⊎◌, ap, ◌∙◌, sym, if_eq, if_not_eq,
}
use networkio.Base.Int.{ℤ, pos, negsuc}

-- `struct sockaddr` by its family, its numbers in host order. A path is the text before its NUL, an
-- address of IPv6 has its 16 bytes.
pub data Sockaddr : Type 0 where
  un : List ℕ → Sockaddr
  inet : ℕ → ℕ → Sockaddr
  inet6 : List ℕ → ℕ → ℕ → ℕ → Sockaddr
  other : ℕ → List ℕ → Sockaddr

-- AF_UNIX, AF_INET, AF_INET6; `other` carries its own.
abbrev pub sa_family : Sockaddr → ℕ
sa_family (un path) = 1
sa_family (inet a p) = 2
sa_family (inet6 a p f s) = 10
sa_family (other f d) = f

-- The macro CMP, and what is compared when it finds no difference.
abbrev pub cmp_then : ℕ → ℕ → ℤ → ℤ
cmp_then a b next = if a == b then next else if ltb a b then negsuc 0 else pos 1

abbrev pub nonzero_or : ℤ → ℤ → ℤ
nonzero_or (pos zero) next = next
nonzero_or (pos (suc n)) next = pos (suc n)
nonzero_or (negsuc n) next = negsuc n

-- The sign of `strcmp` and `memcmp`, of texts without NUL and of blocks of one length.
unfoldable pub bytes_cmp : List ℕ → List ℕ → ℤ
bytes_cmp [] [] = pos 0
bytes_cmp [] (y ∷ ys) = negsuc 0
bytes_cmp (x ∷ xs) [] = pos 1
bytes_cmp (x ∷ xs) (y ∷ ys) = cmp_then x y (bytes_cmp xs ys)

-- The branch of the family that both addresses have.
unfoldable pub same_family_cmp : Sockaddr → Sockaddr → ℤ
same_family_cmp (un p) (un q) = nonzero_or (bytes_cmp p q) (pos 0)
same_family_cmp (inet a p) (inet b q) = cmp_then a b (cmp_then p q (pos 0))
same_family_cmp (inet6 a p f s) (inet6 b q g t) =
    nonzero_or (bytes_cmp a b) (cmp_then p q (cmp_then f g (cmp_then s t (pos 0))))
same_family_cmp x y = negsuc 0

unfoldable pub sockaddr_cmp : Sockaddr → Sockaddr → ℤ
sockaddr_cmp x y = cmp_then (sa_family x) (sa_family y) (same_family_cmp x y)
