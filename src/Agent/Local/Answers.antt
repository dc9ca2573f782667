-- ===== src/Agent/Local/Answers.antt =====
-- The messages of a job whose session stays alive.
use my_ngrok.Base.{
  ℕ, suc, ◌+◌, ◌%◌, ◌≤◌, ◌<◌, ◌≡◌, ◌≢◌, ◌∙◌, ◌⊎◌, inl, inr, refl, sym, ap, Bool, true, List, [],
  ◌∷◌, ◌++◌, Bytes, length, append_assoc, append-nil, ℤ, pos, negsuc, ok, if◌then◌else◌, arith,
}
use my_ngrok.Protocol.{IsFrame, wire, max_binary_frame_payload}
use my_ngrok.Protocol.Messages.{Headers}
use my_ngrok.Protocol.RoundTrip.{marshal_binary_ok}
use my_ngrok.Agent.Frame.Interop.{marshal_binary_agree}
use my_ngrok.Agent.Local.{
  ReadEnd, more, eof, read_error, Read, refused, answered, Outgoing, response_chunk, Job, Streamed,
  streamed, stream_failed, done, send_out, send_chunk, chunk_frame, send_piece, after_piece,
  stream_body, start_body, start_of, stream_local, end_message, finish, run_job, new_job,
}

-- The messages of one piece, before those of the rest.
abbrev pub piece : Bytes → ℕ → Bytes → (ℕ → List Outgoing) → List Outgoing
piece id n [] rest = rest n
piece id n (b ∷ bs) rest =
    response_chunk (wire (chunk_frame id n (b ∷ bs))) ∷ rest ((n + 1) % 4294967296)

abbrev pub messages_after : ReadEnd → List Outgoing → List Outgoing
messages_after more messages = messages
messages_after _ messages = []

-- One numbered frame for each piece that is not empty, up to the first read that has an error.
abbrev pub messages : Bytes → ℕ → List Read → List Outgoing
messages id n [] = []
messages id n (r ∷ reads) = piece id n r.chunk (λ k. messages_after r.end (messages id k reads))

-- Some read has an error, io.EOF as a rule, and no read returns more than its buffer holds.
abbrev pub Ends : List Read → Type 0
Ends [] = ⊥
Ends (r ∷ reads) = (length r.chunk ≤ max_binary_frame_payload) × ((r.end ≢ more) ⊎ Ends reads)

module _ (alive : ℕ → Bool) (id : Bytes) (up : (k : ℕ) → alive k ≡ true) where
  send_out_up :
      (j : Job) (message : Outgoing)
      → send_out alive id j message
        ≡ (record j { sent = j.sent ++ message ∷ []; sends = suc j.sends }, true)
  unfolding send_out
  send_out_up j message = rw (up j.sends) refl

  abbrev chunk_sent : Job → Bytes → Job
  chunk_sent j frame = record j {
    sequence = (j.sequence + 1) % 4294967296;
    sent = j.sent ++ response_chunk frame ∷ [];
    sends = suc j.sends;
  }

  send_chunk_up :
      (j : Job) (frame : Bytes) → send_chunk alive id j (ok frame) ≡ (chunk_sent j frame, true)
  unfolding send_chunk
  send_chunk_up j frame = rw (send_out_up j (response_chunk frame)) refl

  Streams : Streamed → Job → List Outgoing → Type 0
  Streams s j all =
      (j' : Job) × ((s ≡ streamed j') ⊎ ((e : Bytes) × (s ≡ stream_failed e j')))
      × (j'.response_started ≡ j.response_started)
      × (j'.sent ≡ j.sent ++ all)

  rest_added :
      (m : Job) (e : ReadEnd) (rest : Job → Streamed) (more_messages : List Outgoing)
      → (e ≡ more → Streams (rest m) m more_messages)
      → Streams (after_piece alive id rest e (m, true)) m (messages_after e more_messages)
  unfolding Streams after_piece
  rest_added m more rest ms next = next refl
  rest_added m eof rest ms next = (m, inl refl, refl, sym (append-nil m.sent))
  rest_added m read_error rest ms next = (m, inr (_, refl), refl, sym (append-nil m.sent))

  piece_added :
      (j : Job) (chunk : Bytes) (rest : ℕ → List Outgoing)
      → 0 < length id
      → length id < 65536
      → length chunk ≤ max_binary_frame_payload
      → (j' : Job) × (send_piece alive id j chunk ≡ (j', true))
        × (j'.response_started ≡ j.response_started)
        × (j'.sent ++ rest j'.sequence ≡ j.sent ++ piece id j.sequence chunk rest)
  unfolding send_piece send_chunk
  piece_added j [] rest p q h = (j, refl, refl, refl)
  piece_added j (b ∷ bs) rest p q h =
      let f = chunk_frame id j.sequence (b ∷ bs) in
      let valid : IsFrame f = record {
        known_type = refl;
        id_pos = p;
        id_bound = q;
        payload_bound = omega arith;
      } in
      let marshalled = marshal_binary_agree f ∙ marshal_binary_ok f valid in
      (
        chunk_sent j (wire f),
        ap (send_chunk alive id j) marshalled ∙ send_chunk_up j (wire f),
        refl,
        append_assoc j.sent (response_chunk (wire f) ∷ []) (rest ((j.sequence + 1) % 4294967296)),
      )

  body_added :
      (reads : List Read) (j : Job)
      → 0 < length id
      → length id < 65536
      → Ends reads
      → Streams (stream_body alive id reads j) j (messages id j.sequence reads)
  unfolding stream_body Streams
  body_added [] j p q h = absurd h
  body_added (r ∷ reads) j p q (small, ends) =
      let (m, sent, started, all) =
        piece_added j r.chunk (λ k. messages_after r.end (messages id k reads)) p q small in
      let (j', went, started', all') =
        rest_added m r.end (λ n. stream_body alive id reads n) (messages id m.sequence reads)
          (λ on.
            body_added reads m p q
              (elim ends [ inl last ↦ absurd (last on) | inr later ↦ later ])) in
      (j', rw sent went, started' ∙ started, all' ∙ all)

  finish_started :
      (s : Streamed) (j : Job)
      → ((s ≡ streamed j) ⊎ ((e : Bytes) × (s ≡ stream_failed e j)))
      → j.response_started ≡ true
      → finish alive id s
        ≡ done (record j { sent = j.sent ++ end_message id ∷ []; sends = suc j.sends })
  unfolding finish
  finish_started s j (inl whole) on =
      ap (finish alive id) whole ∙ ap (λ x. done x.0) (send_out_up j (end_message id))
  finish_started s j (inr (e, cut)) on =
      ap (finish alive id) cut
      ∙ (ap
            (λ b.
              if b
              then done (send_out alive id j (end_message id)).0
              else done
                  (send_out alive id (send_out alive id j (start_of id (pos 502) [] (pos 0) e)).0
                    (end_message id)).0)
            on
          ∙ ap (λ x. done x.0) (send_out_up j (end_message id)))

  -- A job whose session stays alive ends, and answers with a start, the frames of the body and an
  -- end. The service has answered with reads that end, in io.EOF or in another error: the end is sent
  -- either way. The frames are numbered from 0, one for each piece that is not empty. The request's ID
  -- fits a frame, and no read returns more than the 32 KiB that its buffer holds.
  pub run_job-answered :
      (status : ℤ) (headers : Headers) (reads : List Read)
      → 0 < length id
      → length id < 65536
      → Ends reads
      → (j : Job) × (run_job alive id (answered status headers reads) ≡ done j)
        × (j.sent
            ≡ start_of id status headers (negsuc 0) []
              ∷ (messages id 0 reads ++ end_message id ∷ []))
  unfolding run_job stream_local start_body Streams
  run_job-answered status headers reads p q ends =
      let first = start_of id status headers (negsuc 0) [] in
      let begun = record new_job { sent = first ∷ []; sends = 1; response_started = true } in
      let (j, went, started, all) = body_added reads begun p q ends in
      let opened = send_out_up new_job first in
      (
        record j { sent = j.sent ++ end_message id ∷ []; sends = suc j.sends },
        ap (λ x. finish alive id (start_body alive id reads x)) opened
            ∙ finish_started (stream_body alive id reads begun) j went started,
        ap (λ ms. ms ++ end_message id ∷ []) all,
      )

  -- A job whose service cannot be asked answers with status 502 and the error, and an end.
  pub run_job-refused :
      (e : Bytes)
      → (j : Job) × (run_job alive id (refused e) ≡ done j)
        × (j.sent ≡ start_of id (pos 502) [] (pos 0) e ∷ end_message id ∷ [])
  unfolding run_job stream_local finish
  run_job-refused e =
      let first = send_out_up new_job (start_of id (pos 502) [] (pos 0) e) in
      let second =
        send_out_up (record new_job { sent = start_of id (pos 502) [] (pos 0) e ∷ []; sends = 1 })
          (end_message id) in
      (
        _,
        ap done (ap (λ x. (send_out alive id x.0 (end_message id)).0) first ∙ ap (λ x. x.0) second),
        refl,
      )
