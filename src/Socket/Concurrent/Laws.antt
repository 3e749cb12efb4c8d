-- ===== src/Socket/Concurrent/Laws.antt =====
-- One thread of the concurrent server of library/src/socket/concurrent_server.cpp.
use networkio.Base.{
  le→ltb_false, ℕ, zero, suc, ◌≡◌, refl, ap, ◌∙◌, Bool, true, false, List, [], ◌∷◌, ◌++◌, Option,
  none, some, if◌then◌else◌, if_not_eq, arith,
}
use networkio.Socket.Concurrent.{Server, process_all, process_round, process, run_loop}

-- What comes of a handler that is processed: whether it is kept, and the handler.
abbrev pub kept : {H : Type 0} → List (Bool × H) → List H
kept [] = []
kept ((true, h) ∷ rest) = h ∷ kept rest
kept ((false, h) ∷ rest) = kept rest

module _ {X H : Type 0} (accept_client : X → Option H × X)
    (process_client : H → X → Bool × H × X) where
  -- Each handler processed once, in their order, over the state as the one before has left it.
  pub data Turns : List H → X → List (Bool × H) → X → Type 0 where
    done : (x : X) → Turns [] x [] x
    turn :
        {h : H} {hs : List H} {x x₁ x₂ : X} {keep : Bool} {h' : H} {outs : List (Bool × H)}
        → process_client h x ≡ (keep, h', x₁)
        → Turns hs x₁ outs x₂
        → Turns (h ∷ hs) x ((keep, h') ∷ outs) x₂

  -- A handler that has been accepted stands last.
  abbrev pub joined : List H → Option H → List H
  joined hs none = hs
  joined hs (some h) = hs ++ h ∷ []

  kept_cons :
      (keep : Bool) (h : H) (outs : List (Bool × H))
      → (if keep then h ∷ kept outs else kept outs) ≡ kept ((keep, h) ∷ outs)
  kept_cons true h outs = refl
  kept_cons false h outs = refl

  process_all-Turns :
      (hs : List H) (x : X)
      → (outs : List (Bool × H)) × (x' : X) × Turns hs x outs x'
        × (process_all accept_client process_client hs x ≡ (kept outs, x'))
  unfolding process_all
  process_all-Turns [] x = ([], x, done x, refl)
  process_all-Turns (h ∷ hs) x =
      let (keep, h', x₁) = process_client h x in
      let (outs, x₂, ts, e) = process_all-Turns hs x₁ in
      (
        (keep, h') ∷ outs,
        x₂,
        turn refl ts,
        ap (λ (l, y). (if keep then h' ∷ l else l, y)) e
            ∙ ap (λ l. (l, x₂)) (kept_cons keep h' outs),
      )

  -- `process` without threads: each handler that has been accepted is processed once, in order, the new
  -- one last; those that say to be kept remain, in their order, and no other.
  pub process-Turns :
      {V : Type 0} (s : Server V H) (x : X)
      → s.m_threads ≡ 0
      → let (got, x₁) = accept_client x in
        (outs : List (Bool × H)) × (x' : X) × Turns (joined s.m_clients got) x₁ outs x'
        × (process accept_client process_client s x
            ≡ (true, record s { m_clients = kept outs }, x'))
  unfolding process process_round
  process-Turns s x e =
      let (got, x₁) = accept_client x in
      let (outs, x', ts, run) = process_all-Turns (joined s.m_clients got) x₁ in
      (
        outs,
        x',
        ts,
        if_not_eq _ (le→ltb_false 0 s.m_threads (omega arith))
            (ap (λ (hs, y). (true, record s { m_clients = hs }, y)) run),
      )

  process-true :
      {V : Type 0} (s : Server V H) (x : X)
      → let (more, s', x') = process accept_client process_client s x in more ≡ true
  unfolding process
  process-true s x = ground arith

  -- `process` always says true, so the loop of `run` goes on whatever the number of its rounds: `run`
  -- does not return once the server is started.
  pub run_loop_endless :
      {V : Type 0} (rounds : ℕ) (s : Server V H) (x : X)
      → run_loop accept_client process_client rounds s x ≡ none
  unfolding run_loop
  run_loop_endless zero s x = refl
  run_loop_endless (suc rounds) s x =
      let (more, s', x') = process accept_client process_client s x in
      ap
        (λ m. elim m [
          | false ↦ some true
          | true ↦ run_loop accept_client process_client rounds s' x'
        ])
        (process-true s x)
      ∙ run_loop_endless rounds s' x'
