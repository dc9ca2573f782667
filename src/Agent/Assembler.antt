-- ===== src/Agent/Assembler.antt =====
-- agent/internal/gatewayclient/chunk_assembler.go: a request body put together from its chunks.
-- A pointer receiver is a state that is passed on; an error leaves the state as it was. The capacity up
-- to which `make` can allocate is an argument; `make_panics` is no error that is returned, but the panic
-- that ends the process.
pub mod Order
mod Examples
use my_ngrok.Base.{
  ℕ, ◌+◌, ◌%◌, Bool, not, ◌&&◌, ◌||◌, [], ◌++◌, Bytes, length, ℤ, pos, negsuc, ltb_ℤ, leb_ℤ, eq_ℤ,
  Result, ok, err, ◌==◌, if◌then◌else◌,
}
use my_ngrok.Protocol.{BinaryFrame, request_body_chunk}

pub record ChunkAssembler : Type 0 where
  pub expected : ℤ
  pub next : ℕ
  pub body : Bytes

pub data AssembleError : Type 0 where
  invalid_content_length unexpected_chunk body_exceeds body_too_short : AssembleError
  make_panics : AssembleError

unfoldable pub new_chunk_assembler : ℕ → ℤ → Result AssembleError ChunkAssembler
new_chunk_assembler max_capacity expected =
    if ltb_ℤ expected (negsuc 0)
    then err invalid_content_length
    else if ltb_ℤ (pos max_capacity) expected
    then err make_panics
    else ok (record { expected = expected; next = 0; body = [] })

-- The flag of a successful `add` says that the announced length is reached.
unfoldable pub add : ChunkAssembler → BinaryFrame → Result AssembleError (ChunkAssembler × Bool)
add a frame =
    if not (frame.frame_type == request_body_chunk) || not (frame.sequence == a.next)
    then err unexpected_chunk
    else if leb_ℤ (pos 0) a.expected
        && ltb_ℤ a.expected (pos (length a.body + length frame.payload))
    then err body_exceeds
    else let body' = a.body ++ frame.payload in
      ok (
        record a { body = body'; next = (a.next + 1) % 4294967296 },
        leb_ℤ (pos 0) a.expected && eq_ℤ (pos (length body')) a.expected,
      )

unfoldable pub complete : ChunkAssembler → Result AssembleError (Unit {0})
complete a =
    if leb_ℤ (pos 0) a.expected && not (eq_ℤ (pos (length a.body)) a.expected)
    then err body_too_short
    else ok tt
