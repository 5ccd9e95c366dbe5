-- ===== src/Responder/Store/Reads.antt =====
-- What the reads of the responder store answer in its life (src/LocalGooseDialogueResponderStore.cpp).
use gaudere_agent.Text.{Text}
use gaudere_agent.Responder.Store.Life.{Life}
