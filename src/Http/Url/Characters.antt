-- ===== src/Http/Url/Characters.antt =====
-- The characters that `url_encode` of library/inc/networkio/http/http_url.h leaves in a text.
use networkio.Base.{
  ℕ, ◌≡◌, ◌≢◌, refl, sym, ap, ◌∙◌, subst, true, false, List, [], ◌∷◌, ◌==◌, ◌/◌, ◌%◌, arith,
  Bool-cases, if_eq, if_not_eq, inl, inr, ==_false,
}
use networkio.Http.Url.{is_plain, to_hex, url_encode, c_string}
use networkio.Http.Url.Laws.{IsText}
use networkio.Text.Laws.{Free}

-- A character that the encoding does not use.
abbrev pub IsUnused : ℕ → Type 0
IsUnused c = (is_plain c ≡ false) × (c ≢ 43) × (c ≢ 37)

to_hex_plain : (n : ℕ) → is_plain (to_hex n) ≡ true
unfolding to_hex is_plain
to_hex_plain n = ground arith

plain_not : (c x : ℕ) → is_plain c ≡ false → is_plain x ≡ true → x ≢ c
plain_not c x u p e = let f : false ≡ true = sym u ∙ ap is_plain (sym e) ∙ p in cc f

pub url_encode-Free : (c : ℕ) (cs : List ℕ) → IsUnused c → Free c (url_encode cs)
unfolding url_encode
url_encode-Free c [] u = tt
url_encode-Free c (x ∷ cs) (u, p, q) = elim (Bool-cases (is_plain x)) [
  | inl e ↦
      subst (Free c) (sym (if_eq _ e refl)) (plain_not c x u e, url_encode-Free c cs (u, p, q))
  | inr e ↦ elim (Bool-cases (x == 32)) [
    | inl s ↦
        subst (Free c) (sym (if_not_eq _ e (if_eq _ s refl)))
          (λ z. p (sym z), url_encode-Free c cs (u, p, q))
    | inr s ↦ subst (Free c) (sym (if_not_eq _ e (if_not_eq _ s refl))) (
      λ z. q (sym z),
      (
        plain_not c (to_hex (x / 16)) u (to_hex_plain (x / 16)),
        (plain_not c (to_hex (x % 16)) u (to_hex_plain (x % 16)), url_encode-Free c cs (u, p, q)),
      ),
    )
  ]
]

pub IsUnused-quote : IsUnused 34
unfolding is_plain
IsUnused-quote = (refl, omega arith, omega arith)

pub IsUnused-nul : IsUnused 0
unfolding is_plain
IsUnused-nul = (refl, omega arith, omega arith)

pub IsUnused-semicolon : IsUnused 59
unfolding is_plain
IsUnused-semicolon = (refl, omega arith, omega arith)

pub IsUnused-equals : IsUnused 61
unfolding is_plain
IsUnused-equals = (refl, omega arith, omega arith)

pub c_string-Free : (s : List ℕ) → Free 0 s → c_string s ≡ s
c_string-Free [] f = refl
c_string-Free (x ∷ s) (n, f) = if_not_eq _ (==_false x 0 n) (ap (◌∷◌ x) (c_string-Free s f))

pub IsText-Free : (s : List ℕ) → IsText s → Free 0 s
IsText-Free [] t = tt
IsText-Free (x ∷ s) (h, k, t) = (omega arith, IsText-Free s t)
