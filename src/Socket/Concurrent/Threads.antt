-- ===== src/Socket/Concurrent/Threads.antt =====
-- The threads of the concurrent server of library/src/socket/concurrent_server.cpp: `worker`, and the
-- joining of `shutdown`.
use networkio.Base.{
  ℕ, zero, suc, ◌≡◌, ◌≢◌, refl, ap, ◌∙◌, sym, Bool, true, false, List, [], ◌∷◌, Option, some,
  if◌then◌else◌, eq_cases, inl, inr, get_elem?,
}
use networkio.Socket.Concurrent.{process_round}

-- Where a thread stands: it has not tested `m_threads_active` yet, it is in its loop with its
-- `local_clients`, or it has returned.
pub data Worker (H : Type 0) : Type 0 where
  starting : Worker H
  looping : List H → Worker H
  returned : Worker H

-- The threads of the pool, the flag, and the state of all that the handlers reach. `joining` is a
-- thread in `shutdown`, behind the clearing of the flag.
pub record Pool (X H : Type 0) : Type 0 where
  pub workers : List (Worker H)
  pub m_threads_active : Bool
  pub joining : Bool
  pub state : X

abbrev pub set_worker : {H : Type 0} → List (Worker H) → ℕ → Worker H → List (Worker H)
set_worker [] i t = []
set_worker (s ∷ ss) zero t = t ∷ ss
set_worker (s ∷ ss) (suc i) t = s ∷ set_worker ss i t

abbrev pub is_returned : {H : Type 0} → Worker H → Bool
is_returned starting = false
is_returned (looping hs) = false
is_returned returned = true

-- Each `join` of the loop of `shutdown` comes back.
abbrev pub all_returned : {H : Type 0} → List (Worker H) → Bool
all_returned [] = true
all_returned (t ∷ ts) = if is_returned t then all_returned ts else false

set_same :
    {H : Type 0} (l : List (Worker H)) (i : ℕ) (s t : Worker H)
    → get_elem? l i ≡ some s
    → get_elem? (set_worker l i t) i ≡ some t
set_same [] i s t e = absurd (cc e)
set_same (x ∷ l) zero s t e = refl
set_same (x ∷ l) (suc i) s t e = set_same l i s t e

set_other :
    {H : Type 0} (l : List (Worker H)) (i j : ℕ) (t : Worker H)
    → i ≢ j
    → get_elem? (set_worker l i t) j ≡ get_elem? l j
set_other [] i j t ne = refl
set_other (x ∷ l) zero zero t ne = absurd (ne refl)
set_other (x ∷ l) zero (suc j) t ne = refl
set_other (x ∷ l) (suc i) zero t ne = refl
set_other (x ∷ l) (suc i) (suc j) t ne = set_other l i j t (λ e. ne (ap suc e))

one_loops :
    {H : Type 0} (l : List (Worker H)) (i : ℕ) (hs : List H)
    → get_elem? l i ≡ some (looping hs)
    → all_returned l ≡ false
one_loops [] i hs e = absurd (cc e)
one_loops (starting ∷ l) i hs e = refl
one_loops (looping gs ∷ l) i hs e = refl
one_loops (returned ∷ l) zero hs e = absurd (cc e)
one_loops (returned ∷ l) (suc i) hs e = one_loops l i hs e

some_same : {A : Type 0} (a b : A) → some a ≡ some b → a ≡ b
some_same a b e = cc e

module _ {X H : Type 0} (accept_client : X → Option H × X)
    (process_client : H → X → Bool × H × X) where
  -- What a thread does next. The inner loop goes on while there are handlers and the outer one
  -- always, so both make the next round; what lies between is a sleep.
  unfoldable pub advance : Bool → Worker H → X → Worker H × X
  advance active starting x = (if active then looping [] else returned, x)
  advance active (looping hs) x =
      let (hs', x') = process_round accept_client process_client hs x in (looping hs', x')
  advance active returned x = (returned, x)

  -- One step of the pool: a thread does its next, or `shutdown` clears the flag and begins to join.
  pub data Step : Pool X H → Pool X H → Type 0 where
    works :
        (p p' : Pool X H) (i : ℕ) (t t' : Worker H) (x : X)
        → get_elem? p.workers i ≡ some t
        → advance p.m_threads_active t p.state ≡ (t', x)
        → p' ≡ record p { workers = set_worker p.workers i t'; state = x }
        → Step p p'
    shuts :
        (p p' : Pool X H) → p' ≡ record p { m_threads_active = false; joining = true } → Step p p'

  pub data Steps : Pool X H → Pool X H → Type 0 where
    here : (p : Pool X H) → Steps p p
    next : (p p' p'' : Pool X H) → Step p p' → Steps p' p'' → Steps p p''

  -- A thread that is in its loop.
  abbrev pub Loops : Pool X H → ℕ → Type 0
  Loops p i = (hs : List H) × (get_elem? p.workers i ≡ some (looping hs))

  Step-Loops : (p p' : Pool X H) (i : ℕ) → Step p p' → Loops p i → Loops p' i
  unfolding advance
  Step-Loops _ _ i (shuts p q e) (hs, at) = (hs, ap (λ r. get_elem? r.workers i) e ∙ at)
  Step-Loops _ _ i (works p q j t t' x has went e) (hs, at) = elim (eq_cases j i) [
    | inr (_, ne) ↦ (hs, ap (λ r. get_elem? r.workers i) e ∙ set_other p.workers j i t' ne ∙ at)
    | inl (_, same) ↦
        let it : t ≡ looping hs =
          some_same t (looping hs) (sym has ∙ ap (get_elem? p.workers) same ∙ at) in
        let (hs', x') = process_round accept_client process_client hs p.state in
        let now : t' ≡ looping hs' =
          sym (ap (λ (u, y). u) went)
          ∙ ap (λ u. let (v, y) = advance p.m_threads_active u p.state in v) it in
        (
          hs',
          ap (λ r. get_elem? r.workers i) e
              ∙ ap (get_elem? (set_worker p.workers j t')) (sym same)
              ∙ set_same p.workers j t t' has
              ∙ ap some now,
        )
  ]

  Steps-Loops : (p p' : Pool X H) (i : ℕ) → Steps p p' → Loops p i → Loops p' i
  Steps-Loops _ _ i (here p) l = l
  Steps-Loops _ _ i (next p r q s ss) l = Steps-Loops r q i ss (Step-Loops p r i s l)

  -- Once a thread is in its loop, no sequence of steps of the pool, with `shutdown` among them or
  -- not, leads to a state where the thread has returned: so the joining in `shutdown` never ends.
  pub joins_never :
      (p p' : Pool X H) (i : ℕ)
      → Loops p i
      → Steps p p'
      → Loops p' i × (all_returned p'.workers ≡ false)
  joins_never p p' i l ss =
      let (hs, at) = Steps-Loops p p' i ss l in ((hs, at), one_loops p'.workers i hs at)

  -- A thread that has not tested the flag when `shutdown` clears it returns at its next step, and
  -- one that tests it before that enters its loop.
  pub starting-advance :
      (p : Pool X H)
      → (p.m_threads_active ≡ false
          → advance p.m_threads_active starting p.state ≡ (returned, p.state))
        × (p.m_threads_active ≡ true
            → advance p.m_threads_active starting p.state ≡ (looping [], p.state))
  unfolding advance
  starting-advance p = (
    λ e. ap (λ b. (if b then looping [] else returned, p.state)) e,
    λ e. ap (λ b. (if b then looping [] else returned, p.state)) e,
  )
