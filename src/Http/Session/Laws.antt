-- ===== src/Http/Session/Laws.antt =====
-- Two clients and one session id: the search of library/src/http/http_session_store.cpp.
use networkio.Base.{
  ℕ, zero, suc, ◌≡◌, refl, ap, ◌∙◌, sym, true, false, List, [], ◌∷◌, none, some, if_eq, if_not_eq,
  Bool-cases, inl, inr, if◌then◌else◌,
}
use networkio.Http.Server.{Connection}
use networkio.Http.Session.{
  Sessions, is_valid, is_free, find_session, touch, store, search, get, implement_me, cookie_of,
  looked_up, with_cookie,
}
use networkio.Text.{eq_text}
use networkio.Text.Laws.{eq_text_same, eq_text→eq}

find_session-touch :
    (ss : Sessions) (key k : List ℕ) → find_session (touch ss key) k ≡ find_session ss k
unfolding find_session touch
find_session-touch [] key k = elim (Bool-cases (eq_text key k)) [
  | inl e ↦ if_eq _ e refl
  | inr e ↦ if_not_eq _ e refl
]
find_session-touch ((a, s) ∷ ss) key k = elim (Bool-cases (eq_text a key)) [
  | inl e ↦ ap (λ l. find_session l k) (if_eq _ e refl)
  | inr e ↦
      ap (λ l. find_session l k) (if_not_eq _ e refl)
      ∙ ap (λ o. if eq_text a k then s else o) (find_session-touch ss key k)
]

find_session-store : (ss : Sessions) (key x : List ℕ) → find_session (store ss key x) key ≡ some x
unfolding find_session store
find_session-store [] key x = if_eq _ (eq_text_same key) refl
find_session-store ((a, s) ∷ ss) key x = elim (Bool-cases (eq_text a key)) [
  | inl e ↦ ap (λ l. find_session l key) (if_eq _ e refl) ∙ if_eq _ e refl
  | inr e ↦
      ap (λ l. find_session l key) (if_not_eq _ e refl)
      ∙ if_not_eq _ e (find_session-store ss key x)
]

store_other :
    (ss : Sessions) (key x k : List ℕ)
    → eq_text key k ≡ false
    → find_session (store ss key x) k ≡ find_session ss k
unfolding find_session store
store_other [] key x k ne = if_not_eq _ ne refl
store_other ((a, s) ∷ ss) key x k ne = elim (Bool-cases (eq_text a key)) [
  | inl e ↦
      let off : eq_text a k ≡ false = ap (λ t. eq_text t k) (eq_text→eq a key e) ∙ ne in
      ap (λ l. find_session l k) (if_eq _ e refl) ∙ if_not_eq _ off (sym (if_not_eq _ off refl))
  | inr e ↦
      ap (λ l. find_session l k) (if_not_eq _ e refl)
      ∙ ap (λ o. if eq_text a k then s else o) (store_other ss key x k ne)
]

-- The one id that is generated is taken: the search goes on for ever.
pub search_endless :
    (rounds : ℕ) (ss : Sessions)
    → is_free (find_session ss implement_me) ≡ false
    → search rounds ss ≡ none
unfolding search
search_endless zero ss e = refl
search_endless (suc rounds) ss e = if_not_eq _ e (
    search_endless rounds (touch ss implement_me)
      (ap is_free (find_session-touch ss implement_me implement_me) ∙ e))

search_free :
    (rounds : ℕ) (ss : Sessions)
    → is_free (find_session ss implement_me) ≡ true
    → search (suc rounds) ss ≡ some (implement_me, touch ss implement_me)
unfolding search
search_free rounds ss e = if_eq _ e refl

-- A client whose cookie names no valid session gets the session "implement_me" while that is free,
-- in the first round of the search, and the store then has it as a valid session. From there on the
-- same call for any other client whose cookie names no valid session does not end, whatever the
-- number of rounds: the search finds the one id that it generates taken, and keeps the lock.
pub get_hangs :
    (rounds n : ℕ) (ss : Sessions) (conn conn' : Connection)
    → is_free (find_session ss (cookie_of conn)) ≡ true
    → is_free (find_session ss implement_me) ≡ true
    → is_free (find_session ss (cookie_of conn')) ≡ true
    → eq_text implement_me (cookie_of conn') ≡ false
    → (ss' : Sessions) × (get (suc rounds) ss conn
        ≡ some (implement_me, ss', with_cookie (looked_up conn) implement_me))
      × (get n ss' conn' ≡ none)
unfolding get is_valid
get_hangs rounds n ss conn conn' e free e' ne =
    let sid = cookie_of conn in
    let sid' = cookie_of conn' in
    let ss₁ = touch ss sid in
    let ss₂ = touch ss₁ implement_me in
    let ss₃ = store ss₂ implement_me implement_me in
    let taken : is_free (find_session ss₃ implement_me) ≡ false =
      ap is_free (find_session-store ss₂ implement_me implement_me) in
    let same : find_session ss₃ sid' ≡ find_session ss sid' =
      store_other ss₂ implement_me implement_me sid' ne
      ∙ find_session-touch ss₁ implement_me sid'
      ∙ find_session-touch ss sid sid' in
    (
      ss₃,
      if_eq _ e (
          ap
            (λ o. elim o [
              | none ↦ none
              | some (s, ss₂) ↦ some (s, store ss₂ s s, with_cookie (looked_up conn) s)
            ])
            (search_free rounds ss₁ (ap is_free (find_session-touch ss sid implement_me) ∙ free))),
      if_eq _ (ap is_free same ∙ e') (
          ap
            (λ o. elim o [
              | none ↦ none
              | some (s, ss₂) ↦ some (s, store ss₂ s s, with_cookie (looked_up conn') s)
            ])
            (search_endless n (touch ss₃ sid')
              (ap is_free (find_session-touch ss₃ sid' implement_me) ∙ taken))),
    )
