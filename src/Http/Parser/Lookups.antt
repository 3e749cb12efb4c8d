-- ===== src/Http/Parser/Lookups.antt =====
-- The fields of a message of library/src/http/http_parser.cpp as a map.
use networkio.Base.{
  ℕ, ◌≡◌, refl, ap, ◌∙◌, sym, false, List, [], ◌∷◌, some, if◌then◌else◌, if_eq, if_not_eq,
  Bool-cases, inl, inr,
}
use networkio.Http.Parser.{Fields, set_field, find_field}
use networkio.Text.{eq_text}
use networkio.Text.Laws.{eq_text_same, eq_text→eq}

-- A lookup of the key that has been assigned.
pub find_field-same :
    (fs : Fields) (key val : List ℕ) → find_field (set_field fs key val) key ≡ some val
unfolding find_field set_field
find_field-same [] key val = if_eq _ (eq_text_same key) refl
find_field-same ((a, v) ∷ fs) key val = elim (Bool-cases (eq_text a key)) [
  | inl e ↦ ap (λ l. find_field l key) (if_eq _ e refl) ∙ if_eq _ e refl
  | inr e ↦
      ap (λ l. find_field l key) (if_not_eq _ e refl) ∙ if_not_eq _ e (find_field-same fs key val)
]

-- A lookup of another key.
pub find_field-other :
    (fs : Fields) (key val k : List ℕ)
    → eq_text key k ≡ false
    → find_field (set_field fs key val) k ≡ find_field fs k
unfolding find_field set_field
find_field-other [] key val k ne = if_not_eq _ ne refl
find_field-other ((a, v) ∷ fs) key val k ne = elim (Bool-cases (eq_text a key)) [
  | inl e ↦
      let off : eq_text a k ≡ false = ap (λ t. eq_text t k) (eq_text→eq a key e) ∙ ne in
      ap (λ l. find_field l k) (if_eq _ e refl) ∙ if_not_eq _ off (sym (if_not_eq _ off refl))
  | inr e ↦
      ap (λ l. find_field l k) (if_not_eq _ e refl)
      ∙ ap (λ o. if eq_text a k then some v else o) (find_field-other fs key val k ne)
]
