-- ===== src/Plugin/Background.antt =====
-- The background reconciliation of payment-system/plugin.go: `Start`, `Shutdown`, and the goroutine
-- between them, as a step relation.
use procyon_modules.Base.{
  Bool-cases, inl, inr, ◌⊎◌, ℕ, suc, ◌+◌, ◌≤◌, ◌<◌, ◌≡◌, refl, sym, ◌∙◌, Bool, true, false, arith,
  if◌then◌else◌,
}
use mathlib.Core.Bool.{false≢true}

-- `started` is the Once, `stoppable` says that `p.stop` is set, `cancelled` that the context is
-- done, `loops` is the counter of the WaitGroup, `runs` how many reconciliations have begun, and
-- `returned` says that a `Shutdown` after `Start` has returned.
pub record Background : Type 0 where
  pub started : Bool
  pub cancelled : Bool
  pub loops : ℕ
  pub runs : ℕ
  pub returned : Bool

abbrev pub initial : Background
initial = record { started = false; cancelled = false; loops = 0; runs = 0; returned = false }

-- `startBackgroundReconciliation`
unfoldable pub start : Background → Background
start b = if b.started then b else record b { started = true; loops = b.loops + 1 }

-- `if p.stop != nil { p.stop() }`
unfoldable pub request_stop : Background → Background
request_stop b = if b.started then record b { cancelled = true } else b

-- What can happen. The goroutine may reconcile once more after the context is done, since `select`
-- chooses among the channels that are ready; `Shutdown` waits for the counter to be 0.
pub data Step : Background → Background → Type 0 where
  starts : (b : Background) → Step b (start b)
  ticks : (b : Background) → 0 < b.loops → Step b (record b { runs = b.runs + 1 })
  parent_ends : (b : Background) → Step b (record b { cancelled = true })
  leaves :
      (b : Background)
      → b.cancelled ≡ true
      → (n : ℕ) → b.loops ≡ suc n
      → Step b (record b { loops = n })
  stops : (b : Background) → Step b (request_stop b)
  returns :
      (b : Background) → b.started ≡ true → b.loops ≡ 0 → Step b (record b { returned = true })

pub data Reach (a : Background) : Background → Type 0 where
  here : Reach a a
  next : {b c : Background} → Reach a b → Step b c → Reach a c

trans : {a b c : Background} → Reach a b → Reach b c → Reach a c
trans r here = r
trans r (next t s) = next (trans r t) s

-- At most one goroutine runs, none before the start, and none after a shutdown has returned.
pub record IsSound (b : Background) : Type 0 where
  pub single : b.loops ≤ 1
  pub unstarted : b.started ≡ false → b.loops ≡ 0
  pub finished : b.returned ≡ true → (b.loops ≡ 0) × (b.started ≡ true)

at_choice :
    (P : Background → Type 0) (t : Bool) (x y : Background)
    → (t ≡ true → P x)
    → (t ≡ false → P y)
    → P (if t then x else y)
at_choice P true x y h k = h refl
at_choice P false x y h k = k refl

start-IsSound : (b : Background) → IsSound b → IsSound (start b)
unfolding start
start-IsSound b v =
    at_choice IsSound b.started b _ (λ h. v)
      (λ h. record {
        single = omega (arith, v.unstarted h);
        unstarted = λ e. cc;
        finished = λ r. absurd (false≢true (sym h ∙ (v.finished r).1));
      })

request_stop-IsSound : (b : Background) → IsSound b → IsSound (request_stop b)
unfolding request_stop
request_stop-IsSound b v =
    at_choice IsSound b.started _ b
      (λ h. record { single = v.single; unstarted = v.unstarted; finished = v.finished }) (λ h. v)

Step-IsSound : {b c : Background} → Step b c → IsSound b → IsSound c
Step-IsSound (starts b) v = start-IsSound b v
Step-IsSound (ticks b h) v = record {
  single = v.single;
  unstarted = v.unstarted;
  finished = v.finished;
}
Step-IsSound (parent_ends b) v = record {
  single = v.single;
  unstarted = v.unstarted;
  finished = v.finished;
}
Step-IsSound (leaves b c n e) v = record {
  single = omega (arith, v.single);
  unstarted = λ h. absurd (omega (arith, v.unstarted h));
  finished = λ r. absurd (omega (arith, (v.finished r).0));
}
Step-IsSound (stops b) v = request_stop-IsSound b v
Step-IsSound (returns b s e) v = record {
  single = v.single;
  unstarted = v.unstarted;
  finished = λ r. (e, s);
}

Reach-IsSound : {b : Background} → Reach initial b → IsSound b
Reach-IsSound here = record { single = omega arith; unstarted = λ h. refl; finished = λ r. cc }
Reach-IsSound (next r s) = Step-IsSound s (Reach-IsSound r)

-- No goroutine, and as many reconciliations as before.
abbrev IsOver : ℕ → Background → Type 0
IsOver runs b = (b.started ≡ true) × (b.loops ≡ 0) × (b.runs ≡ runs)

Step-IsOver : (runs : ℕ) {b c : Background} → Step b c → IsOver runs b → IsOver runs c
unfolding start request_stop
Step-IsOver runs (starts b) v =
    at_choice (IsOver runs) b.started b _ (λ h. v) (λ h. absurd (false≢true (sym h ∙ v.0)))
Step-IsOver runs (ticks b h) v = absurd (omega (arith, v.1))
Step-IsOver runs (parent_ends b) v = v
Step-IsOver runs (leaves b c n e) v = absurd (omega (arith, v.1))
Step-IsOver runs (stops b) v = at_choice (IsOver runs) b.started _ b (λ h. v) (λ h. v)
Step-IsOver runs (returns b s e) v = v

Reach-IsOver : (runs : ℕ) {b c : Background} → Reach b c → IsOver runs b → IsOver runs c
Reach-IsOver runs here v = v
Reach-IsOver runs (next r s) v = Step-IsOver runs s (Reach-IsOver runs r v)

-- However the starts, the ticks, the end of the host's context and the shutdowns interleave, at most
-- one goroutine reconciles at a time, and none once a shutdown of a plugin that was started has
-- returned; after that, no reconciliation begins any more.
pub shutdown_ends :
    (b c : Background)
    → Reach initial b
    → Reach b c
    → (c.loops + (if b.returned then 1 else 0) ≤ 1) × ((b.returned ≡ false) ⊎ (c.runs ≡ b.runs))
shutdown_ends b c r t = elim (Bool-cases b.returned) [
  | inl h ↦
      let (none_left, begun) = (Reach-IsSound r).finished h in
      let over = Reach-IsOver b.runs t (begun, none_left, refl) in
      (rw h (omega (arith, over.1)), inr over.2)
  | inr h ↦ (rw h (omega (arith, (Reach-IsSound (trans r t)).single)), inl h)
]
