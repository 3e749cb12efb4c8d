-- ===== src/Socket/Address/Order.antt =====
-- `sockaddr_cmp` of library/src/socket/socket.cpp as an order.
use networkio.Base.{ℕ, zero, suc, ◌≡◌, ◌≢◌, refl, ap, ap₂, ◌∙◌, sym, List, [], ◌∷◌, arith, ◌↔◌}
use networkio.Base.Int.{ℤ, pos, negsuc}
use networkio.Socket.Address.{
  Sockaddr, un, inet, inet6, other, cmp_then, nonzero_or, bytes_cmp, same_family_cmp, sockaddr_cmp,
}

abbrev pub flip : ℤ → ℤ
flip (pos zero) = pos 0
flip (pos (suc n)) = negsuc n
flip (negsuc n) = pos (suc n)

-- The address is of a family that the function knows.
abbrev pub IsKnown : Sockaddr → Type 0
IsKnown (other f d) = ⊥
IsKnown x = Unit {0}

-- The families that the function knows are not those of other addresses.
abbrev pub IsProper : Sockaddr → Type 0
IsProper (other f d) = (f ≢ 1) × (f ≢ 2) × (f ≢ 10)
IsProper x = Unit {0}

cmp_then-flip : (a b : ℕ) (n : ℤ) → cmp_then b a (flip n) ≡ flip (cmp_then a b n)
cmp_then-flip a b n = ground arith

cmp_then_zero : (a b : ℕ) (n : ℤ) → cmp_then a b n ≡ pos 0 → (a ≡ b) × (n ≡ pos 0)
cmp_then_zero a b n e = ground (arith, e)

cmp_then_same : (a : ℕ) (n : ℤ) → cmp_then a a n ≡ n
cmp_then_same a n = ground arith

cmp_then_differ : (a b : ℕ) (n m : ℤ) → a ≢ b → cmp_then b a n ≡ flip (cmp_then a b m)
cmp_then_differ a b n m ne = ground (arith, ne)

nonzero_or-flip : (m n : ℤ) → nonzero_or (flip m) (flip n) ≡ flip (nonzero_or m n)
nonzero_or-flip (pos zero) n = refl
nonzero_or-flip (pos (suc m)) n = refl
nonzero_or-flip (negsuc m) n = refl

nonzero_or_zero : (m n : ℤ) → nonzero_or m n ≡ pos 0 → (m ≡ pos 0) × (n ≡ pos 0)
nonzero_or_zero (pos zero) n e = (refl, e)
nonzero_or_zero (pos (suc m)) n e = absurd (ground (arith, e))
nonzero_or_zero (negsuc m) n e = cc e

bytes_cmp-flip : (xs ys : List ℕ) → bytes_cmp ys xs ≡ flip (bytes_cmp xs ys)
unfolding bytes_cmp
bytes_cmp-flip [] [] = refl
bytes_cmp-flip [] (y ∷ ys) = refl
bytes_cmp-flip (x ∷ xs) [] = refl
bytes_cmp-flip (x ∷ xs) (y ∷ ys) =
    ap (cmp_then y x) (bytes_cmp-flip xs ys) ∙ cmp_then-flip x y (bytes_cmp xs ys)

bytes_cmp_zero : (xs ys : List ℕ) → bytes_cmp xs ys ≡ pos 0 → xs ≡ ys
unfolding bytes_cmp
bytes_cmp_zero [] [] e = refl
bytes_cmp_zero [] (y ∷ ys) e = cc e
bytes_cmp_zero (x ∷ xs) [] e = absurd (ground (arith, e))
bytes_cmp_zero (x ∷ xs) (y ∷ ys) e =
    let (same, rest) = cmp_then_zero x y (bytes_cmp xs ys) e in
    ap₂ ◌∷◌ same (bytes_cmp_zero xs ys rest)

bytes_cmp_same : (xs : List ℕ) → bytes_cmp xs xs ≡ pos 0
unfolding bytes_cmp
bytes_cmp_same [] = refl
bytes_cmp_same (x ∷ xs) = cmp_then_same x (bytes_cmp xs xs) ∙ bytes_cmp_same xs

inet_flip :
    (a b p q : ℕ) → cmp_then b a (cmp_then q p (pos 0)) ≡ flip (cmp_then a b (cmp_then p q (pos 0)))
inet_flip a b p q =
    ap (cmp_then b a) (cmp_then-flip p q (pos 0)) ∙ cmp_then-flip a b (cmp_then p q (pos 0))

-- Two addresses of families that the function knows, or one of them of another family, compare the
-- other way round with the sign turned.
pub sockaddr_cmp-flip :
    (x y : Sockaddr) → IsKnown x → IsProper y → sockaddr_cmp y x ≡ flip (sockaddr_cmp x y)
unfolding sockaddr_cmp same_family_cmp
sockaddr_cmp-flip (un p) (un q) k h =
    ap (λ z. nonzero_or z (pos 0)) (bytes_cmp-flip p q) ∙ nonzero_or-flip (bytes_cmp p q) (pos 0)
sockaddr_cmp-flip (un p) (inet a q) k h = refl
sockaddr_cmp-flip (un p) (inet6 a q f s) k h = refl
sockaddr_cmp-flip (un p) (other f d) k (h, _, _) =
    cmp_then_differ 1 f (negsuc 0) (negsuc 0) (λ e. h (sym e))
sockaddr_cmp-flip (inet a p) (un q) k h = refl
sockaddr_cmp-flip (inet a p) (inet b q) k h = inet_flip a b p q
sockaddr_cmp-flip (inet a p) (inet6 b q f s) k h = refl
sockaddr_cmp-flip (inet a p) (other f d) k (_, h, _) =
    cmp_then_differ 2 f (negsuc 0) (negsuc 0) (λ e. h (sym e))
sockaddr_cmp-flip (inet6 a p f s) (un q) k h = refl
sockaddr_cmp-flip (inet6 a p f s) (inet b q) k h = refl
sockaddr_cmp-flip (inet6 a p f s) (inet6 b q g t) k h =
    let rest = cmp_then p q (cmp_then f g (cmp_then s t (pos 0))) in
    ap₂ nonzero_or (bytes_cmp-flip a b) (
      ap (λ z. cmp_then q p z) (inet_flip f g s t)
      ∙ cmp_then-flip p q (cmp_then f g (cmp_then s t (pos 0))))
    ∙ nonzero_or-flip (bytes_cmp a b) rest
sockaddr_cmp-flip (inet6 a p f s) (other g d) k (_, _, h) =
    cmp_then_differ 10 g (negsuc 0) (negsuc 0) (λ e. h (sym e))
sockaddr_cmp-flip (other f d) y k h = absurd k

one_zero : {A : Type 0} → pos 1 ≡ pos 0 → A
one_zero e = absurd (ground (arith, e))

below_zero : {A : Type 0} (n : ℕ) → negsuc n ≡ pos 0 → A
below_zero n e = absurd (cc e)

differ_zero : {A : Type 0} (a b : ℕ) (n : ℤ) → a ≢ b → cmp_then a b n ≡ pos 0 → A
differ_zero a b n ne e = absurd (ground (arith, e, ne))

sockaddr_cmp_same : (x : Sockaddr) → IsKnown x → sockaddr_cmp x x ≡ pos 0
unfolding sockaddr_cmp same_family_cmp
sockaddr_cmp_same (un p) k = ap (λ z. nonzero_or z (pos 0)) (bytes_cmp_same p)
sockaddr_cmp_same (inet a p) k = cmp_then_same a (cmp_then p p (pos 0)) ∙ cmp_then_same p (pos 0)
sockaddr_cmp_same (inet6 a p f s) k =
    ap (λ z. nonzero_or z (cmp_then p p (cmp_then f f (cmp_then s s (pos 0))))) (bytes_cmp_same a)
    ∙ cmp_then_same p (cmp_then f f (cmp_then s s (pos 0)))
    ∙ cmp_then_same f (cmp_then s s (pos 0))
    ∙ cmp_then_same s (pos 0)
sockaddr_cmp_same (other f d) k = absurd k

zero_same :
    (x y : Sockaddr) → IsProper x → IsProper y → sockaddr_cmp x y ≡ pos 0 → (x ≡ y) × IsKnown x
unfolding sockaddr_cmp same_family_cmp
zero_same (un p) (un q) h k e =
    let (same, _) = nonzero_or_zero (bytes_cmp p q) (pos 0) e in
    (ap un (bytes_cmp_zero p q same), tt)
zero_same (un p) (inet a q) h k e = below_zero 0 e
zero_same (un p) (inet6 a q f s) h k e = below_zero 0 e
zero_same (un p) (other f d) h (k, _, _) e = differ_zero 1 f (negsuc 0) (λ z. k (sym z)) e
zero_same (inet a p) (un q) h k e = one_zero e
zero_same (inet a p) (inet b q) h k e =
    let (same, rest) = cmp_then_zero a b (cmp_then p q (pos 0)) e in
    let (ports, _) = cmp_then_zero p q (pos 0) rest in (ap₂ inet same ports, tt)
zero_same (inet a p) (inet6 b q f s) h k e = below_zero 0 e
zero_same (inet a p) (other f d) h (_, k, _) e = differ_zero 2 f (negsuc 0) (λ z. k (sym z)) e
zero_same (inet6 a p f s) (un q) h k e = one_zero e
zero_same (inet6 a p f s) (inet b q) h k e = one_zero e
zero_same (inet6 a p f s) (inet6 b q g t) h k e =
    let (same, e₁) =
      nonzero_or_zero (bytes_cmp a b) (cmp_then p q (cmp_then f g (cmp_then s t (pos 0)))) e in
    let (ports, e₂) = cmp_then_zero p q (cmp_then f g (cmp_then s t (pos 0))) e₁ in
    let (flows, e₃) = cmp_then_zero f g (cmp_then s t (pos 0)) e₂ in
    let (scopes, _) = cmp_then_zero s t (pos 0) e₃ in
    (
      ap₂ (λ a' p'. inet6 a' p' f s) (bytes_cmp_zero a b same) ports
          ∙ ap₂ (λ f' s'. inet6 b q f' s') flows scopes,
      tt,
    )
zero_same (inet6 a p f s) (other g d) h (_, _, k) e = differ_zero 10 g (negsuc 0) (λ z. k (sym z)) e
zero_same (other f d) (un q) (h, _, _) k e = differ_zero f 1 (negsuc 0) h e
zero_same (other f d) (inet b q) (_, h, _) k e = differ_zero f 2 (negsuc 0) h e
zero_same (other f d) (inet6 b q g t) (_, _, h) k e = differ_zero f 10 (negsuc 0) h e
zero_same (other f d) (other g c) h k e =
    let (_, bad) = cmp_then_zero f g (negsuc 0) e in below_zero 0 bad

-- Two addresses compare as 0 exactly when they are the same, and of a family that the function
-- knows: one of another family never compares as 0, not even with itself.
pub sockaddr_cmp_zero :
    (x y : Sockaddr) → IsProper x → IsProper y → (sockaddr_cmp x y ≡ pos 0) ↔ ((x ≡ y) × IsKnown x)
sockaddr_cmp_zero x y h k =
    (zero_same x y h k, λ (e, known). ap (sockaddr_cmp x) (sym e) ∙ sockaddr_cmp_same x known)
