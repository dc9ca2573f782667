-- ===== src/Agent/Assembler/Order.antt =====
-- What an assembler that has accepted a run of chunks holds.
use my_ngrok.Base.{
  ap, ℕ, ◌+◌, ◌%◌, ◌≡◌, ◌∙◌, ◌↔◌, ◌⊎◌, List, [], ◌∷◌, ◌++◌, Bytes, length, ℤ, pos, ◌≤ℤ◌, leb_ℤ,
  Bool, true, false, ◌&&◌, eq_ℤ, Result, ok, ◌>>=◌, bind-eq-ok, arith, append_assoc, append-nil,
  length-append,
}
use my_ngrok.Protocol.{BinaryFrame, payloads, request_body_chunk}
use my_ngrok.Agent.Assembler.{ChunkAssembler, AssembleError, new_chunk_assembler, add, complete}

-- The chunks of one stream, in the order of their arrival.
unfoldable pub add_all : ChunkAssembler → List BinaryFrame → Result AssembleError ChunkAssembler
add_all a [] = ok a
add_all a (f ∷ fs) = add a f >>= λ r. add_all r.0 fs

-- Request chunks whose sequence numbers count up from `n`, modulo 2^32.
abbrev pub InSequence : ℕ → List BinaryFrame → Type 0
InSequence n [] = Unit {0}
InSequence n (f ∷ fs) =
    (f.frame_type ≡ request_body_chunk) × (f.sequence ≡ n) × InSequence ((n + 1) % 4294967296) fs

-- The body never outgrows an announced length.
abbrev pub Fits : ChunkAssembler → Type 0
Fits a = (leb_ℤ (pos 0) a.expected ≡ true) → pos (length a.body) ≤ℤ a.expected

abbrev pub extended : ChunkAssembler → Bytes → ℕ → ChunkAssembler
extended a more n = record a { body = a.body ++ more; next = n }

add_step :
    (a : ChunkAssembler) (f : BinaryFrame) {r : ChunkAssembler × Bool}
    → add a f ≡ ok r
    → (f.frame_type ≡ request_body_chunk)
      × (f.sequence ≡ a.next)
      × (r.0 ≡ extended a f.payload ((a.next + 1) % 4294967296))
      × Fits r.0
unfolding add
add_step a f h = ground (arith, length-append a.body f.payload)

pub add-Fits :
    (a : ChunkAssembler) (f : BinaryFrame) {r : ChunkAssembler × Bool} → add a f ≡ ok r → Fits r.0
add-Fits a f h = let (t, q, e, fit) = add_step a f h in fit

pub add-expected :
    (a : ChunkAssembler) (f : BinaryFrame) {r : ChunkAssembler × Bool}
    → add a f ≡ ok r
    → r.0.expected ≡ a.expected
add-expected a f h = let (t, q, e, fit) = add_step a f h in ap (λ x. x.expected) e

-- A new assembler has an empty body and waits for chunk 0.
pub new_chunk_assembler_lem :
    (max_capacity : ℕ) (n : ℤ) {a : ChunkAssembler}
    → new_chunk_assembler max_capacity n ≡ ok a
    → (a ≡ record { expected = n; next = 0; body = [] }) × Fits a
unfolding new_chunk_assembler
new_chunk_assembler_lem max_capacity n h = ground arith

-- A run of chunks is accepted only in sequence; the body is then theirs, joined in that order, and
-- it keeps within an announced length.
pub add_all_sound :
    (a : ChunkAssembler) (fs : List BinaryFrame) {b : ChunkAssembler}
    → Fits a
    → add_all a fs ≡ ok b
    → InSequence a.next fs × (b.body ≡ a.body ++ payloads fs) × (b.expected ≡ a.expected) × Fits b
unfolding add_all
add_all_sound a [] fit h = ground (arith, append-nil a.body)
add_all_sound a (f ∷ fs) fit h =
    let (r, first, rest) = bind-eq-ok (add a f) (λ r. add_all r.0 fs) h in
    let (t, q, e, fit') = add_step a f first in
    let (order, joined, same, fit'') = add_all_sound r.0 fs fit' rest in
    ground (arith, append_assoc a.body f.payload (payloads fs))

abbrev filled : ℤ → Bytes → Bool
filled expected body = leb_ℤ (pos 0) expected && eq_ℤ (pos (length body)) expected

add_ok :
    (a : ChunkAssembler) (f : BinaryFrame)
    → f.frame_type ≡ request_body_chunk
    → f.sequence ≡ a.next
    → ((leb_ℤ (pos 0) a.expected ≡ true) → pos (length (a.body ++ f.payload)) ≤ℤ a.expected)
    → add a f
      ≡ ok (
        extended a f.payload ((a.next + 1) % 4294967296),
        filled a.expected (a.body ++ f.payload),
      )
unfolding add
add_ok a f t q fits = ground (arith, length-append a.body f.payload)

-- Chunks that are numbered from the assembler's next number on, and that keep within an announced
-- length, are all accepted, and the body grows by their payloads.
pub add_all_complete :
    (a : ChunkAssembler) (fs : List BinaryFrame)
    → InSequence a.next fs
    → ((leb_ℤ (pos 0) a.expected ≡ true) → pos (length (a.body ++ payloads fs)) ≤ℤ a.expected)
    → (n : ℕ) × (add_all a fs ≡ ok (extended a (payloads fs) n))
unfolding add_all
add_all_complete a [] s fits = (a.next, ground (arith, append-nil a.body))
add_all_complete a (f ∷ fs) (t, q, s) fits =
    let joined = append_assoc a.body f.payload (payloads fs) in
    let first = add_ok a f t q (λ h. omega (
      arith,
      fits h,
      length-append a.body f.payload,
      length-append a.body (f.payload ++ payloads fs),
      length-append f.payload (payloads fs),
    )) in
    let (n, rest) =
      add_all_complete (extended a f.payload ((a.next + 1) % 4294967296)) fs s
        (λ h. rw joined (fits h)) in
    (n, rw first (rest ∙ rw joined))

-- `complete` passes exactly when the length was not announced, or is reached.
pub complete_iff :
    (a : ChunkAssembler)
    → (complete a ≡ ok tt)
      ↔ ((a.expected ≡ pos (length a.body)) ⊎ (leb_ℤ (pos 0) a.expected ≡ false))
unfolding complete
complete_iff a = ground arith
