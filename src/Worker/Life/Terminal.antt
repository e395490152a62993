-- ===== src/Worker/Life/Terminal.antt =====
-- A terminal state is final, and it comes after the inputs have stopped.
use market_data_backend.Prelude.{
  Bool, true, false, some, ◌≡◌, refl, sym, ap, ◌∙◌, subst, inl, inr, arith, Option-cases,
}
use market_data_backend.Worker.State.{
  WorkerState, starting, running, stopping, stopped, error, terminal,
}
use market_data_backend.Worker.Life.{
  Exit, Renewal, on_tick, Place, not_begun, begun, set_up, renewing, leaving, finishing, reporting,
  over, Life, new_life, on_stop, Step, begin, entered, inputs_started, tick, context_done,
  inputs_stopped, finish, reported, stop, parent_cancelled, Steps, here, later,
}

-- What the place of `run` says of the state and of the inputs.
abbrev Fits : Place → Life → Type 0
Fits not_begun l = (terminal l.state ≡ false) × (l.inputs_running ≡ false)
Fits begun l = (terminal l.state ≡ false) × (l.inputs_running ≡ false)
Fits set_up l = (terminal l.state ≡ false) × (l.inputs_running ≡ false)
Fits renewing l = terminal l.state ≡ false
Fits (leaving exit) l = (terminal l.state ≡ false) × (terminal exit.state ≡ true)
Fits (finishing exit) l =
    (terminal l.state ≡ false) × (terminal exit.state ≡ true) × (l.inputs_running ≡ false)
Fits (reporting exit) l = (terminal l.state ≡ true) × (l.inputs_running ≡ false)
Fits over l = (terminal l.state ≡ true) × (l.inputs_running ≡ false)

terminal-on_stop : (s : WorkerState) → terminal (on_stop s) ≡ terminal s
unfolding terminal
terminal-on_stop starting = refl
terminal-on_stop running = refl
terminal-on_stop stopping = refl
terminal-on_stop stopped = refl
terminal-on_stop error = refl

at_place : (l : Life) (p : Place) → l.place ≡ p → Fits l.place l → Fits p l
at_place l p e f = subst (λ q. Fits q l) e f

-- Only the finality of the state and the inputs count.
same_Fits :
    (p : Place) (l m : Life)
    → terminal l.state ≡ terminal m.state
    → l.inputs_running ≡ m.inputs_running
    → Fits p l
    → Fits p m
same_Fits not_begun l m t i f = (sym t ∙ f.0, sym i ∙ f.1)
same_Fits begun l m t i f = (sym t ∙ f.0, sym i ∙ f.1)
same_Fits set_up l m t i f = (sym t ∙ f.0, sym i ∙ f.1)
same_Fits renewing l m t i f = sym t ∙ f
same_Fits (leaving exit) l m t i f = (sym t ∙ f.0, f.1)
same_Fits (finishing exit) l m t i f = (sym t ∙ f.0, f.1, sym i ∙ f.2)
same_Fits (reporting exit) l m t i f = (sym t ∙ f.0, sym i ∙ f.1)
same_Fits over l m t i f = (sym t ∙ f.0, sym i ∙ f.1)

on_tick-terminal :
    (cancelled : Bool) (answer : Renewal) (exit : Exit)
    → on_tick cancelled answer ≡ some exit
    → terminal exit.state ≡ true
unfolding on_tick terminal
on_tick-terminal cancelled answer exit h = ground arith

Step-Fits : (l m : Life) → Step l m → Fits l.place l → Fits m.place m
unfolding terminal
Step-Fits l _ (begin p) f = (refl, (at_place l not_begun p f).1)
Step-Fits l _ (entered p) f = (refl, (at_place l begun p f).1)
Step-Fits l _ (inputs_started p) f = (at_place l set_up p f).0
Step-Fits l _ (tick answer p) f = elim (Option-cases (on_tick l.cancelled answer)) [
  | inl on ↦ rw on f
  | inr (exit, off) ↦ rw off (at_place l renewing p f, on_tick-terminal l.cancelled answer exit off)
]
Step-Fits l _ (context_done p c) f = (at_place l renewing p f, refl)
Step-Fits l _ (inputs_stopped exit p) f = let g = at_place l (leaving exit) p f in (g.0, g.1, refl)
Step-Fits l _ (finish exit p) f = let g = at_place l (finishing exit) p f in (g.1, g.2)
Step-Fits l _ (reported exit p) f = at_place l (reporting exit) p f
Step-Fits l _ stop f =
    same_Fits l.place l (record l { state = on_stop l.state; cancelled = true })
      (sym (terminal-on_stop l.state)) refl f
Step-Fits l _ parent_cancelled f = same_Fits l.place l (record l { cancelled = true }) refl refl f

Steps-Fits : (l m : Life) → Steps l m → Fits l.place l → Fits m.place m
Steps-Fits l _ here f = f
Steps-Fits l n (later {m} r step) f = Step-Fits m n step (Steps-Fits l m r f)

new_life-Fits :
    (consumption_enabled : Bool)
    → Fits (new_life consumption_enabled).place (new_life consumption_enabled)
unfolding new_life terminal
new_life-Fits consumption_enabled = (refl, refl)

on_stop-terminal : (s : WorkerState) → terminal s ≡ true → on_stop s ≡ s
unfolding terminal
on_stop-terminal s h = ground arith

terminal-inputs :
    (p : Place) (l : Life) → Fits p l → terminal l.state ≡ true → l.inputs_running ≡ false
terminal-inputs not_begun l f t = f.1
terminal-inputs begun l f t = f.1
terminal-inputs set_up l f t = f.1
terminal-inputs renewing l f t = absurd (cc (f, t))
terminal-inputs (leaving exit) l f t = absurd (cc (f.0, t))
terminal-inputs (finishing exit) l f t = f.2
terminal-inputs (reporting exit) l f t = f.1
terminal-inputs over l f t = f.1

Step-state : (l m : Life) → Step l m → Fits l.place l → terminal l.state ≡ true → m.state ≡ l.state
Step-state l _ (begin p) f t = absurd (cc ((at_place l not_begun p f).0, t))
Step-state l _ (entered p) f t = absurd (cc ((at_place l begun p f).0, t))
Step-state l _ (inputs_started p) f t = refl
Step-state l _ (tick answer p) f t = absurd (cc (at_place l renewing p f, t))
Step-state l _ (context_done p c) f t = refl
Step-state l _ (inputs_stopped exit p) f t = refl
Step-state l _ (finish exit p) f t = absurd (cc ((at_place l (finishing exit) p f).0, t))
Step-state l _ (reported exit p) f t = refl
Step-state l _ stop f t = on_stop-terminal l.state t
Step-state l _ parent_cancelled f t = refl

Steps-state :
    (l m : Life) → Steps l m → Fits l.place l → terminal l.state ≡ true → m.state ≡ l.state
Steps-state l _ here f t = refl
Steps-state l n (later {m} r step) f t =
    let same = Steps-state l m r f t in
    Step-state m n step (Steps-Fits l m r f) (ap terminal same ∙ t) ∙ same

-- A worker whose state is terminal, `stopped` or `error`, no longer consumes, and it keeps that state
-- whatever comes after: further stops, cancellations, and the end of its own goroutine.
pub terminal-IsFinal :
    (consumption_enabled : Bool) (l m : Life)
    → Steps (new_life consumption_enabled) l
    → terminal l.state ≡ true
    → Steps l m
    → (m.state ≡ l.state) × (m.inputs_running ≡ false)
terminal-IsFinal consumption_enabled l m r t more =
    let f = Steps-Fits (new_life consumption_enabled) l r (new_life-Fits consumption_enabled) in
    let same = Steps-state l m more f t in
    (same, terminal-inputs m.place m (Steps-Fits l m more f) (ap terminal same ∙ t))
