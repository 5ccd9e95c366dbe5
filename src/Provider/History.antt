-- ===== src/Provider/History.antt =====
-- Any history of the provider handler: executions on any tasks, one after another, between which the
-- rest of the program may do anything but lose an action.
use gaudere_agent.Prelude.{◌≤◌, ◌<◌, ◌≡◌, true, [], arith}
use gaudere_agent.Text.{Text}
use gaudere_agent.Effects.{Result, ok, raised}
use gaudere_agent.Effects.Logged.{World, Post}
use gaudere_agent.Work.Task.{Task, HandlerResult}
use gaudere_agent.Provider.Api.{Api, Laws}
use gaudere_agent.Provider.Handler.{Event, execute}
use gaudere_agent.Provider.Once.{calls, Ordered, Inv, Inv-Stable}
use gaudere_agent.Provider.AtMostOnce.{execute-Safe}

abbrev pub fresh_log : {W : Type 0} → W → World W Event
fresh_log w = record { ext = w; log = [] }

module _ {W : Type 0} (api : Api W) (laws : Laws api) where
  pub data History (start : W) : World W Event → Type 0 where
    begin : History start (fresh_log start)
    handled : {s : World W Event} → History start s → (t : Task) → History start (execute api t s).1
    meanwhile :
        {s : World W Event}
        → History start s
        → (w : W) → ((k : Text) → laws.known k s.ext ≡ true → laws.known k w ≡ true)
        → History start (record s { ext = w })

  after-Post :
      (out : Result HandlerResult × World W Event)
      → Post (Inv laws.known) (λ _. Inv laws.known) out
      → Inv laws.known out.1
  after-Post (ok a, s) p = p
  after-Post (raised e, s) p = p

  begin-Inv : (w : W) → Inv laws.known (fresh_log w)
  unfolding calls
  begin-Inv w = record {
    once = λ k. omega arith;
    durable = λ k c. absurd (omega arith);
    ordered = tt;
  }

  pub History-Inv : {w : W} {s : World W Event} → History w s → Inv laws.known s
  History-Inv {w} begin = begin-Inv w
  History-Inv (handled {s} h t) =
      after-Post (execute api t s) ((execute-Safe api laws t).at s (History-Inv h))
  History-Inv (meanwhile {s} h w k) = Inv-Stable laws.known s w k (History-Inv h)

-- Where the action store loses no action: in any history the provider is invoked at most once for each
-- idempotency key, every key that was called is durably stored, and every call is directly preceded
-- by the durable marker of its action, and before that by a budget admission for its key.
pub History-calls :
    {W : Type 0} (api : Api W) (laws : Laws api) {w : W} {s : World W Event}
    → History api laws w s
    → ((k : Text) → calls k s.log ≤ 1)
      × ((k : Text) → 0 < calls k s.log → laws.known k s.ext ≡ true)
      × Ordered s.log
History-calls api laws h = let p = History-Inv api laws h in (p.once, p.durable, p.ordered)
