-- ===== src/Agent/Assembler/Examples.antt =====
-- Two chunks of an announced body.
use my_ngrok.Base.{ℕ, ◌≡◌, refl, List, [], ◌∷◌, ◌++◌, Bytes, pos, arith}
use my_ngrok.Protocol.{BinaryFrame, payloads}
use my_ngrok.Agent.Assembler.{ChunkAssembler, add}
use my_ngrok.Agent.Assembler.Order.{add_all, InSequence, Fits, add_all_sound}

abbrev empty : ChunkAssembler
empty = record { expected = pos 3; next = 0; body = [] }

abbrev chunk : ℕ → Bytes → BinaryFrame
chunk n bs = record { frame_type = 1; request_id = 7 ∷ []; sequence = n; payload = bs }

abbrev chunks : List BinaryFrame
chunks = chunk 0 (10 ∷ 20 ∷ []) ∷ chunk 1 (30 ∷ []) ∷ []

abbrev full : ChunkAssembler
full = record { expected = pos 3; next = 2; body = 10 ∷ 20 ∷ 30 ∷ [] }

add_all_sound_example :
    InSequence 0 chunks × (full.body ≡ [] ++ payloads chunks) × (pos 3 ≡ pos 3) × Fits full
unfolding add_all add
add_all_sound_example = add_all_sound empty chunks {b = full} (λ h. ground arith) refl
