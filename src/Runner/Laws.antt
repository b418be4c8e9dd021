-- ===== src/Runner/Laws.antt =====
-- Shutdown is final, and until then a run is always in progress or scheduled.
use fcp_sfd_object_processor.Common.{
  ◌≤◌, ◌<◌, ◌≡◌, refl, ◌⊎◌, inr, true, false, List, [], ◌∷◌, arith,
}
use fcp_sfd_object_processor.Runner.{
  Loop, initial, Event, start, timer_fires, run_ends, stop, react, react_all,
}

react-stopped :
    (e : Event) (l : Loop)
    → l.is_stopping ≡ true
    → l.timer ≡ false
    → ((react e l).is_stopping ≡ true)
      × ((react e l).timer ≡ false)
      × ((react e l).started ≡ l.started)
      × ((react e l).in_progress ≤ l.in_progress)
unfolding react
react-stopped start l h t = ground arith
react-stopped timer_fires l h t = ground arith
react-stopped run_ends l h t = ground arith
react-stopped stop l h t = ground arith

react_all-stopped :
    (es : List Event) (l : Loop)
    → l.is_stopping ≡ true
    → l.timer ≡ false
    → ((react_all es l).timer ≡ false)
      × ((react_all es l).started ≡ l.started)
      × ((react_all es l).in_progress ≤ l.in_progress)
unfolding react_all
react_all-stopped [] l h t = (t, refl, omega arith)
react_all-stopped (e ∷ es) l h t =
    let (h', t', s', p') = react-stopped e l h t in
    let (t'', s'', p'') = react_all-stopped es (react e l) h' t' in
    (t'', omega (arith, s', s''), omega (arith, p', p''))

-- Once shutdown has begun no run starts, whatever happens then: not from the timer, not from the
-- boot, and not by a run that ends and would schedule the next.
pub react_all-stop :
    (es : List Event) (l : Loop)
    → ((react_all (stop ∷ es) l).timer ≡ false)
      × ((react_all (stop ∷ es) l).started ≡ l.started)
      × ((react_all (stop ∷ es) l).in_progress ≤ l.in_progress)
unfolding react_all react
react_all-stop es l =
    react_all-stopped es (record l { is_stopping = true; timer = false }) refl refl

abbrev pub IsAlive : Loop → Type 0
IsAlive l = (l.timer ≡ true) ⊎ (0 < l.in_progress)

abbrev pub NoStop : List Event → Type 0
NoStop [] = Unit
NoStop (stop ∷ es) = ⊥
NoStop (start ∷ es) = NoStop es
NoStop (timer_fires ∷ es) = NoStop es
NoStop (run_ends ∷ es) = NoStop es

react-IsAlive :
    (e : Event) (l : Loop)
    → (e ≡ stop → ⊥)
    → l.is_stopping ≡ false
    → IsAlive l
    → ((react e l).is_stopping ≡ false) × IsAlive (react e l)
unfolding react
react-IsAlive start l n h a = (ground arith, ground arith)
react-IsAlive timer_fires l n h a = (ground arith, ground arith)
react-IsAlive run_ends l n h a = (ground arith, ground arith)
react-IsAlive stop l n h a = absurd (n refl)

react_all-IsAlive :
    (es : List Event) (l : Loop)
    → NoStop es
    → l.is_stopping ≡ false
    → IsAlive l
    → IsAlive (react_all es l)
unfolding react_all
react_all-IsAlive [] l n h a = a
react_all-IsAlive (start ∷ es) l n h a =
    let (h', a') = react-IsAlive start l (λ e. cc e) h a in
    react_all-IsAlive es (react start l) n h' a'
react_all-IsAlive (timer_fires ∷ es) l n h a =
    let (h', a') = react-IsAlive timer_fires l (λ e. cc e) h a in
    react_all-IsAlive es (react timer_fires l) n h' a'
react_all-IsAlive (run_ends ∷ es) l n h a =
    let (h', a') = react-IsAlive run_ends l (λ e. cc e) h a in
    react_all-IsAlive es (react run_ends l) n h' a'
react_all-IsAlive (stop ∷ es) l n h a = elim n [ ]

-- After the boot and until shutdown begins, a run is in progress or a timer is set for the next
-- one, however many runs ended and however they ended: polling never stops by itself.
pub react_all-start : (es : List Event) → NoStop es → IsAlive (react_all (start ∷ es) initial)
unfolding react_all react
react_all-start es n = react_all-IsAlive es _ n refl (inr (omega arith))
