-- ===== src/Pulse/Store/History.antt =====
-- The life of the sidecar: calls of any callers, in any order, under any faults. A caller of `replace`
-- passes as `expected` a cursor that was in the table at some earlier moment, as `find` gave it.
use gaudere_agent.Prelude.{
  ℕ, ◌<◌, ◌≡◌, refl, sym, ap, ◌∙◌, ◌⊎◌, inl, inr, true, Option, none, some, arith, List, [], ◌∷◌,
}
use mathlib.Core.Option.{some-injective}
use gaudere_agent.Text.{Text}
use gaudere_agent.Text.Laws.{eqb_refl, eqb_iff}
use gaudere_agent.Pulse.Cursor.{Cursor, scope_name, valid_cursor, refused_fields}
use gaudere_agent.Pulse.Transition.{valid_transition}
use gaudere_agent.Pulse.Steps.{step_valid, step_revision}
use gaudere_agent.Pulse.Store.{Table, empty_table, put, seed, replace}
use gaudere_agent.Sidecar.{Fault}
use gaudere_agent.Pulse.Store.Effect.{IsSeed, seed_effect, replace_effect}

-- The rows that were in the table after each call, the last one first.
abbrev pub Past : Type 0
Past = List Cursor

abbrev pub remember : Option Cursor → Past → Past
remember none h = h
remember (some c) h = c ∷ h

abbrev pub snapshot : Table → Past → Past
snapshot t h = remember (t scope_name) h

abbrev pub Seen : Cursor → Past → Type 0
Seen e [] = ⊥
Seen e (c ∷ h) = (e ≡ c) ⊎ Seen e h

pub data Life : Table → Past → Type 0 where
  born : Life empty_table []
  seeds :
      {t : Table} {h : Past}
      → Life t h
      → (f : Fault) (c : Cursor) → Life (seed t f c).0 (snapshot (seed t f c).0 h)
  replaces :
      {t : Table} {h : Past}
      → Life t h
      → (f : Fault) (e r : Cursor) → Seen e h
      → Life (replace t f e r).0 (snapshot (replace t f e r).0 h)

-- A past whose rows follow one another by canonical transitions from a seed.
pub data Lineage : Past → Cursor → Type 0 where
  start : {c : Cursor} → IsSeed c → c.scope ≡ scope_name → Lineage (c ∷ []) c
  again : {h : Past} {c : Cursor} → Lineage h c → Lineage (c ∷ h) c
  move : {h : Past} {c d : Cursor} → Lineage h c → valid_transition c d ≡ true → Lineage (d ∷ h) d

-- The revision tells the rows of a lineage apart.
older :
    {h : Past} {c : Cursor}
    → Lineage h c
    → (e : Cursor) → Seen e h
    → (e ≡ c) ⊎ (e.revision < c.revision)
older (start s n) e (inl p) = inl p
older (start s n) e (inr z) = elim z [ ]
older (again l) e (inl p) = inl p
older (again l) e (inr z) = older l e z
older (move l v) e (inl p) = inl p
older (move {c} {d} l v) e (inr z) = elim (older l e z) [
  | inl p ↦ inr (omega (arith, step_revision c d v, ap (λ x. x.revision) p))
  | inr q ↦ inr (omega (arith, step_revision c d v))
]

valid-scope : (c : Cursor) → valid_cursor c ≡ true → c.scope ≡ scope_name
unfolding valid_cursor refused_fields
valid-scope c v = ground (arith, eqb_iff c.scope scope_name)

abbrev revision_of : Option Cursor → ℕ
revision_of none = 0
revision_of (some c) = c.revision

-- The row and its past agree.
data Agrees (o : Option Cursor) (h : Past) : Type 0 where
  nothing : o ≡ none → h ≡ [] → Agrees o h
  current : (c : Cursor) → o ≡ some c → Lineage h c → Agrees o h

kept : {o : Option Cursor} {h : Past} → Agrees o h → Agrees o (remember o h)
kept {o} {h} (nothing p q) = rw p (nothing refl q)
kept {o} {h} (current c p l) = rw p (current c refl (again l))

seeded :
    {o : Option Cursor} {h : Past} (c : Cursor)
    → Agrees o h
    → IsSeed c
    → c.scope ≡ scope_name
    → o ≡ none
    → Agrees (some c) (c ∷ h)
seeded c (nothing p q) s e n = current c refl (rw q (start s e))
seeded c (current d p l) s e n = cc

-- The expected cursor is the row itself, for it was seen and has the row's revision.
moved :
    {o : Option Cursor} {h : Past} (e r w : Cursor)
    → Agrees o h
    → Seen e h
    → o ≡ some w
    → w.revision ≡ e.revision
    → valid_transition e r ≡ true
    → Agrees (some r) (r ∷ h)
moved e r w (nothing p q) z s v ok = cc
moved {o} {h} e r w (current c p l) z s v ok = elim (older l e z) [
  | inl q ↦ current r refl (move l (rw q at ok))
  | inr lt ↦
      let same : ◌≡◌ {A = Option Cursor} (some c) (some w) = sym p ∙ s in
      absurd (omega (arith, lt, ap (λ x. revision_of x) same, v))
]

put_read : (t : Table) (k : Text) (c : Cursor) → k ≡ scope_name → put t k c scope_name ≡ some c
put_read t k c e = rw (e, eqb_refl scope_name)

Life-Agrees : {t : Table} {h : Past} → Life t h → Agrees (t scope_name) h
Life-Agrees born = nothing refl refl
Life-Agrees (seeds {t} {h} l f c) = elim (seed_effect t f c) [
  | inl p ↦ rw p (kept (Life-Agrees l))
  | inr (s, n, p) ↦
      let e = valid-scope c s.canonical in
      rw (p, put_read t c.scope c e) (seeded c (Life-Agrees l) s e (rw e at n))
]
Life-Agrees (replaces {t} {h} l f e r z) = elim (replace_effect t f e r) [
  | inl p ↦ rw p (kept (Life-Agrees l))
  | inr w ↦
      let q = valid-scope e (step_valid e r w.legal).0 in
      rw (w.written, put_read t e.scope r q)
        (moved e r w.current (Life-Agrees l) z (rw q at w.stored) w.same_revision w.legal)
]

same_row : {c d : Cursor} → ◌≡◌ {A = Option Cursor} (some c) (some d) → c ≡ d
same_row {c} {d} p = some-injective c d p

-- Whatever calls were made, in any order and under any faults, where each replacement expected a
-- cursor that had been in the table: the rows that were in the table after the calls, up to the present one, begin
-- with a canonical idle seed of revision 0, and each is the one before it or follows it by a canonical
-- transition.
pub Life-Lineage :
    {t : Table} {h : Past} (c : Cursor) → Life t h → t scope_name ≡ some c → Lineage h c
Life-Lineage {h} c l p = elim (Life-Agrees l) [
  | nothing q n ↦ cc
  | current d q k ↦ rw (same_row (sym q ∙ p)) at k
]
