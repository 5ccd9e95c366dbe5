-- ===== src/Thread/Examples.antt =====
-- A thread of two revisions, and the theorems about it.
use gaudere_agent.Prelude.{
  List, arith, ◌-◌, leb, if◌then◌else◌, ℕ, zero, suc, ◌+◌, ◌≡◌, refl, true, some, [], ◌∷◌, ◌++◌,
  all, length,
}
use gaudere_agent.Text.{
  Text, text, eqb, safe_identifier, identifier_byte, starts_with, hex_byte, lowercase_sha256,
  prefixed_sha256,
}
use gaudere_agent.Responder.Lease.{v2_task_prefix, v3_task_prefix, dialogue_task_id}
use gaudere_agent.Sidecar.{healthy, before_commit, answer, transaction}
use gaudere_agent.Sidecar.Rows.{find_row, set_row}
use gaudere_agent.Thread.{
  Head, Sidecar, StoreResult, wrote, alias_of, valid_head, valid_head_transition, same_head,
  read_head, find_head, recorded, insert_history, seed_new, seed, update_found, update_head, swap,
  replace, migrate, history_from, select_history, insert_by_revision, read_rows,
}
use gaudere_agent.Thread.Lineage.{history_of, Among, Origin, Coherent}
use gaudere_agent.Thread.Life.{replaces, Life, opened, seeds, Life-Coherent}
use gaudere_agent.Thread.Paging.{later_of, Consecutive, Life-history_from}
use gaudere_agent.Thread.Record.{Rooted, Life-history, replace-swaps}

abbrev repeat : ℕ → ℕ → Text
repeat zero c = []
repeat (suc n) c = c ∷ repeat n c

abbrev main : Text
unfolding text
main = text "main"

abbrev root : Head
root = record {
  alias = main;
  revision = 0;
  root_task_id = v2_task_prefix ++ repeat 64 b'a';
  head_task_id = v2_task_prefix ++ repeat 64 b'a';
}

abbrev next : Head
next = record root { revision = 1; head_task_id = v3_task_prefix ++ repeat 64 b'b' }

-- The calls, with all that they run.
abbrev seed_call : Sidecar → Head → Sidecar
unfolding main text eqb safe_identifier identifier_byte starts_with hex_byte lowercase_sha256
    prefixed_sha256 all dialogue_task_id find_row set_row valid_head same_head read_head find_head
    recorded insert_history seed_new seed transaction migrate
seed_call s h = (seed s healthy h).0

abbrev once : Sidecar
once = (seed (migrate []) healthy root).0

once-Life : Life [] once
once-Life = seeds (opened tt) healthy root

step : valid_head_transition root next ≡ true
unfolding main seed_call valid_head_transition
step = refl

once_row : find_row alias_of main once.heads ≡ some root
unfolding main seed_call
once_row = refl

Life-Coherent_example : Coherent [] once
Life-Coherent_example = Life-Coherent once-Life

-- A version 1 sidecar whose head has revision 7 is migrated, and then advanced.
abbrev legacy : Head
legacy = record root { revision = 7 }

abbrev advanced : Head
advanced = record next { revision = 8 }

abbrev carried : Sidecar
carried = (replace (migrate (legacy ∷ [])) healthy legacy advanced).0

legacy_valid : valid_head legacy ≡ true
unfolding seed_call
legacy_valid = refl

carried-Life : Life (legacy ∷ []) carried
unfolding find_row
carried-Life = replaces (opened (legacy_valid, refl, tt)) healthy legacy advanced

carried_row : find_row alias_of main carried.heads ≡ some advanced
unfolding seed_call valid_head_transition update_found update_head swap replace
carried_row = refl

-- The history begins with the migrated revision, as it is asked for from revision 0.
from_legacy : history_from carried main 0 16 ≡ answer (legacy ∷ advanced ∷ [])
unfolding seed_call history_from select_history insert_by_revision read_rows valid_head_transition
    update_found update_head swap replace
from_legacy = refl

Life-history_example :
    (first : Head) × Among first (history_of main carried.history)
    × Origin (legacy ∷ []) first
    × (length (history_of main carried.history) + first.revision ≡ advanced.revision + 1)
    × Rooted advanced.root_task_id (history_of main carried.history)
Life-history_example = Life-history main advanced carried-Life carried_row

replace-swaps_example : replace once healthy root next ≡ (
  record { heads = set_row alias_of next once.heads; history = next ∷ once.history },
  wrote StoreResult.accepted (some next) (text "dialogue thread head advanced"),
)
replace-swaps_example = replace-swaps root next once-Life step once_row

-- The history is read oldest first; a call that fails before its COMMIT changes nothing.
two_revisions :
    history_from (replace once healthy root next).0 main 0 64 ≡ answer (root ∷ next ∷ [])
unfolding seed_call history_from select_history insert_by_revision read_rows valid_head_transition
    update_found update_head swap replace
two_revisions = refl

rolled_back : (replace once (before_commit []) root next).0 ≡ once
unfolding seed_call valid_head_transition replace
rolled_back = refl

Life-history_from_example :
    (start : Head) × Among start (history_of main carried.history)
    × Origin (legacy ∷ []) start
    × ((rows : List Head) × (history_from carried main 0 64 ≡ answer rows)
        × Consecutive (later_of 0 start.revision) rows
        × (length rows ≡ (
            if leb 64 (9 - later_of 0 start.revision) then 64 else 9 - later_of 0 start.revision)))
Life-history_from_example =
    Life-history_from main advanced 0 64 carried-Life carried_row (omega arith) (omega arith)
      (omega arith)
