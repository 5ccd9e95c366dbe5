-- ===== src/Thread/Record.antt =====
-- What the history of a thread records, and that a swap from the current head goes through
-- (src/LocalGooseDialogueThreadStore.cpp).
use gaudere_agent.Prelude.{
  ◌+◌, ◌<◌, ◌≡◌, refl, sym, ap, ◌∙◌, inl, inr, true, false, Option, none, some, List, [], ◌∷◌,
  arith, length,
}
use gaudere_agent.Text.{Text, text}
use gaudere_agent.Sidecar.{healthy, answer, transaction}
use gaudere_agent.Sidecar.Rows.{find_row, set_row}
use gaudere_agent.Thread.{
  Head, valid_head, valid_head_transition, same_head, Sidecar, StoreResult, wrote, alias_of,
  read_head, find_head, recorded, insert_history, update_found, update_head, swap, replace,
}
use gaudere_agent.Thread.Lineage.{
  history_of, Among, Origin, Chain, Linked, Coherent, same_head_iff, transition_same,
}
use gaudere_agent.Thread.Life.{Life, Life-Coherent, new_row}

-- All rows have this root.
abbrev pub Rooted : Text → List Head → Type 0
Rooted root [] = Unit {0}
Rooted root (row ∷ rows) = (row.root_task_id ≡ root) × Rooted root rows

next_revision : (e r : Head) → valid_head_transition e r ≡ true → r.revision ≡ e.revision + 1
unfolding valid_head_transition
next_revision e r v = ground arith

abbrev pub oldest : Head → List Head → Head
oldest h [] = h
oldest h (g ∷ rest) = oldest g rest

-- The oldest row of a chain begins it, and the revisions count the rows above it.
pub Chain-oldest :
    (old : List Head) (h : Head) (rows : List Head)
    → Chain old h rows
    → Among (oldest h rows) (h ∷ rows)
      × Origin old (oldest h rows)
      × (length rows + (oldest h rows).revision ≡ h.revision)
Chain-oldest old h [] c = (inl refl, c.1, omega arith)
Chain-oldest old h (g ∷ rest) c =
    let older = Chain-oldest old g rest c.1 in
    (inr older.0, older.1, omega (arith, older.2, next_revision g h c.0))

Rooted-subst : (a b : Text) (rows : List Head) → a ≡ b → Rooted a rows → Rooted b rows
Rooted-subst a b [] e r = tt
Rooted-subst a b (row ∷ rows) e r = (r.0 ∙ e, Rooted-subst a b rows e r.1)

Chain-Rooted :
    (old : List Head) (h : Head) (rows : List Head) → Chain old h rows → Rooted h.root_task_id rows
Chain-Rooted old h [] c = tt
Chain-Rooted old h (g ∷ rest) c =
    let same = (transition_same g h c.0).1 in
    (same, Rooted-subst g.root_task_id h.root_task_id rest same (Chain-Rooted old g rest c.1))

-- What the history of a thread with head h holds, from its first row on.
abbrev pub Chronicle : List Head → Head → List Head → Type 0
Chronicle old h rows =
    (first : Head) × Among first rows
    × Origin old first
    × (length rows + first.revision ≡ h.revision + 1)
    × Rooted h.root_task_id rows

Linked-rows :
    (old : List Head) (o : Option Head) (h : Head) (rows : List Head)
    → o ≡ some h
    → Linked old o rows
    → Chronicle old h rows
Linked-rows old none h rows e l = cc
Linked-rows old (some g) h [] e l = elim l [ ]
Linked-rows old (some g) h (row ∷ rest) e l =
    let same : g ≡ h = cc in
    let chain = rw same at l.1 in
    let begun = Chain-oldest old h rest chain in
    let here : row ≡ h = l.0 ∙ same in
    (
      oldest h rest,
      rw here (begun.0),
      begun.1,
      omega (arith, begun.2),
      (ap (λ x. x.root_task_id) here, Chain-Rooted old h rest chain),
    )

-- In any life of the sidecar, where a version 1 sidecar that it was migrated from had canonical heads, one
-- for each alias: the history of a thread has as many rows as there are revisions from that of one of its
-- rows, which has revision 0 or is a migrated head, to that of its head, and all its rows have the
-- root of the head.
pub Life-history :
    {old : List Head} {s : Sidecar} (alias : Text) (h : Head)
    → Life old s
    → find_row alias_of alias s.heads ≡ some h
    → (first : Head) × Among first (history_of alias s.history)
      × Origin old first
      × (length (history_of alias s.history) + first.revision ≡ h.revision + 1)
      × Rooted h.root_task_id (history_of alias s.history)
Life-history {old} {s} alias h l e =
    Linked-rows old (find_row alias_of alias s.heads) h (history_of alias s.history) e
      ((Life-Coherent l).at alias)

recorded_here :
    (r : Head) (rows : List Head) → recorded r rows ≡ recorded r (history_of r.alias rows)
unfolding recorded history_of
recorded_here r [] = refl
recorded_here r (row ∷ rows) = ground (arith, recorded_here r rows)

Chain-not_recorded :
    (old : List Head) (h r : Head) (rows : List Head)
    → Chain old h rows
    → h.revision < r.revision
    → recorded r (h ∷ rows) ≡ false
unfolding recorded
Chain-not_recorded old h r [] c lt = ground arith
Chain-not_recorded old h r (g ∷ rest) c lt =
    let older : g.revision < r.revision = omega (arith, next_revision g h c.0) in
    let rest_free = Chain-not_recorded old g r rest c.1 older in ground arith

Linked-free :
    (old : List Head) (e r : Head) (rows : List Head)
    → Linked old (some e) rows
    → e.revision < r.revision
    → recorded r rows ≡ false
Linked-free old e r [] l lt = elim l [ ]
Linked-free old e r (row ∷ rows) l lt = rw (l.0) (Chain-not_recorded old e r rows l.1 lt)

found_head :
    (s : Sidecar) (e : Head)
    → valid_head e ≡ true
    → find_row alias_of e.alias s.heads ≡ some e
    → find_head s e.alias ≡ answer (some e)
unfolding find_head read_head
found_head s e v found = rw found (rw v refl)

updated_head :
    (s : Sidecar) (e r : Head)
    → valid_head_transition e r ≡ true
    → find_row alias_of e.alias s.heads ≡ some e
    → update_head s e r ≡ answer (record s { heads = set_row alias_of r s.heads })
unfolding update_head update_found
updated_head s e r v found =
    ap (update_found s e r) found
    ∙ rw ((same_head_iff e e).1 refl)
        (ap (λ h. answer (record s { heads = set_row alias_of h s.heads })) (new_row e r v))

inserted_history :
    (s : Sidecar) (r : Head)
    → recorded r s.history ≡ false
    → insert_history s r ≡ answer (record s { history = r ∷ s.history })
unfolding insert_history
inserted_history s r n = rw n refl

not_yet : (e r : Head) → valid_head_transition e r ≡ true → same_head e r ≡ false
unfolding same_head
not_yet e r v = ground (arith, next_revision e r v)

valid_expected : (e r : Head) → valid_head_transition e r ≡ true → valid_head e ≡ true
unfolding valid_head_transition
valid_expected e r v = ground arith

free_revision :
    {old : List Head} (s : Sidecar) (e r : Head)
    → Coherent old s
    → valid_head_transition e r ≡ true
    → find_row alias_of e.alias s.heads ≡ some e
    → recorded r s.history ≡ false
free_revision {old} s e r c v found =
    let at_alias = ap (λ k. find_row alias_of k s.heads) (sym (transition_same e r v).0) ∙ found in
    recorded_here r s.history
    ∙ Linked-free old e r (history_of r.alias s.history) (rw at_alias at (c.at r.alias))
        (omega (arith, next_revision e r v))

-- In any life of the sidecar, where a version 1 sidecar that it was migrated from had canonical heads, one
-- for each alias, without a fault: a canonical transition from the current head is accepted, and becomes
-- the head and the newest row of the history.
pub replace-swaps :
    {old : List Head} {s : Sidecar} (e r : Head)
    → Life old s
    → valid_head_transition e r ≡ true
    → find_row alias_of e.alias s.heads ≡ some e
    → replace s healthy e r ≡ (
      record { heads = set_row alias_of r s.heads; history = r ∷ s.history },
      wrote StoreResult.accepted (some r) (text "dialogue thread head advanced"),
    )
unfolding replace swap transaction
replace-swaps {s} e r l v found =
    let free = free_revision s e r (Life-Coherent l) v found in
    rw
      (
        v,
        found_head s e (valid_expected e r v) found,
        not_yet e r v,
        (same_head_iff e e).1 refl,
        updated_head s e r v found,
        inserted_history (record s { heads = set_row alias_of r s.heads }) r free,
      )
      refl
