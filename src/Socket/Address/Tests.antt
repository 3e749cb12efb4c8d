-- ===== src/Socket/Address/Tests.antt =====
-- The order of addresses at concrete addresses.
use networkio.Base.{◌≡◌, refl, ◌↔◌, []}
use networkio.Base.Int.{pos, negsuc}
use networkio.Socket.Address.{same_family_cmp, inet, other, sockaddr_cmp}
use networkio.Socket.Address.Order.{IsKnown, sockaddr_cmp_zero}

-- An address of another family differs from itself.
other_self : sockaddr_cmp (other 17 []) (other 17 []) ≡ negsuc 0
unfolding sockaddr_cmp same_family_cmp
other_self = refl

sockaddr_cmp_zero_example :
    (sockaddr_cmp (inet 1 80) (inet 1 80) ≡ pos 0) ↔ ((inet 1 80 ≡ inet 1 80) × IsKnown (inet 1 80))
sockaddr_cmp_zero_example = sockaddr_cmp_zero (inet 1 80) (inet 1 80) tt tt
