-- ===== src/Tunnels/RequestBody/Chunks.antt =====
-- What the messages are that a body is sent as.
use my_ngrok.Base.{
  ℕ, ◌+◌, ◌%◌, ◌≡◌, ◌∙◌, refl, sym, ap, subst, Bool, true, false, List, [], ◌∷◌, ◌++◌, Option, none,
  some, Bytes, Result, ok, err, ◌⊎◌, ◌≢◌, inl, inr, arith, append_assoc,
}
use my_ngrok.Protocol.{BinaryFrame, FrameError, marshal_binary, payloads}
use my_ngrok.Gateway.Types.{message_text, message_binary, OutboundMessage, SessionManager}
use my_ngrok.Gateway.Sessions.{send_context}
use my_ngrok.Tunnels.RequestBody.{
  Turn, ReadEnd, more, eof, read_error, Read, Sender, Progress, going, all_sent, failed, blocked,
  put_result, put_message, advance, send_frame, frame_of, send_chunk, send_end, after_chunk,
  send_request_body, body_error,
}

abbrev pub text : Bytes → OutboundMessage
text encoded = record { message_type = message_text; content = encoded }

abbrev pub binary : Bytes → OutboundMessage
binary encoded = record { message_type = message_binary; content = encoded }

abbrev pub joined_after : ReadEnd → Bytes → Bytes
joined_after more body = body
joined_after _ body = []

abbrev pub frames_after : ReadEnd → List BinaryFrame → List BinaryFrame
frames_after more fs = fs
frames_after _ fs = []

-- The bytes of the reads, up to the first that has an error.
abbrev pub joined : List Read → Bytes
joined [] = []
joined (r ∷ reads) = r.chunk ++ joined_after r.end (joined reads)

abbrev pub piece : Bytes → ℕ → Bytes → (ℕ → List BinaryFrame) → List BinaryFrame
piece id n [] rest = rest n
piece id n (b ∷ bs) rest = frame_of id n (b ∷ bs) ∷ rest ((n + 1) % 4294967296)

-- The frames that the reads call for: one for each piece that is not empty.
abbrev pub frames : Bytes → ℕ → List Read → List BinaryFrame
frames id n [] = []
frames id n (r ∷ reads) = piece id n r.chunk (λ k. frames_after r.end (frames id k reads))

-- Messages that carry the frames, each as the slice it is marshalled to.
abbrev pub Carries : List BinaryFrame → List OutboundMessage → Type 0
Carries [] [] = Unit {0}
Carries (f ∷ fs) (m ∷ messages) =
    (bs : Bytes) × (marshal_binary f ≡ ok bs) × (m ≡ binary bs) × Carries fs messages
Carries _ _ = ⊥

put_result_all_sent :
    (s s' : Sender) (message : OutboundMessage) (x : Option (SessionManager × Bool))
    → put_result all_sent s message x ≡ all_sent s'
    → s'.sent ≡ s.sent ++ message ∷ []
unfolding put_result
put_result_all_sent s s' message none r = cc
put_result_all_sent s s' message (some (m, false)) r = cc
put_result_all_sent s s' message (some (m, true)) r = ground arith

put_result_going :
    (s s' : Sender) (message : OutboundMessage) (x : Option (SessionManager × Bool))
    → put_result advance s message x ≡ going s'
    → (s'.sent ≡ s.sent ++ message ∷ []) × (s'.sequence ≡ (s.sequence + 1) % 4294967296)
unfolding put_result advance
put_result_going s s' message none r = cc
put_result_going s s' message (some (m, false)) r = cc
put_result_going s s' message (some (m, true)) r = ground arith

end_sent :
    (session_id : Bytes) (t : Turn) (s s' : Sender) (o : Option Bytes)
    → send_end session_id t s o ≡ all_sent s'
    → (encoded : Bytes) × (o ≡ some encoded) × (s'.sent ≡ s.sent ++ text encoded ∷ [])
unfolding send_end put_message
end_sent session_id t s s' none r = cc
end_sent session_id t s s' (some encoded) r = (
  encoded,
  refl,
  put_result_all_sent s s' (text encoded)
      (send_context (t.others s.sessions) t.wake session_id (text encoded)) r,
)

frame_sent :
    (session_id : Bytes) (t : Turn) (s s' : Sender) (x : Result FrameError Bytes)
    → send_frame session_id t s x ≡ going s'
    → (frame : Bytes) × (x ≡ ok frame)
      × (s'.sent ≡ s.sent ++ binary frame ∷ [])
      × (s'.sequence ≡ (s.sequence + 1) % 4294967296)
unfolding send_frame put_message
frame_sent session_id t s s' (err e) r = cc
frame_sent session_id t s s' (ok frame) r =
    let (a, b) =
      put_result_going s s' (binary frame)
        (send_context (t.others s.sessions) t.wake session_id (binary frame)) r in
    (frame, refl, a, b)

all_sent_goes_on_not :
    (s m : Sender) (message : OutboundMessage) (x : Option (SessionManager × Bool))
    → put_result all_sent s message x ≢ going m
unfolding put_result
all_sent_goes_on_not s m message none r = cc
all_sent_goes_on_not s m message (some (n, false)) r = cc
all_sent_goes_on_not s m message (some (n, true)) r = cc

advance_ends_not :
    (s m : Sender) (message : OutboundMessage) (x : Option (SessionManager × Bool))
    → put_result advance s message x ≢ all_sent m
unfolding put_result advance
advance_ends_not s m message none r = cc
advance_ends_not s m message (some (n, false)) r = cc
advance_ends_not s m message (some (n, true)) r = cc

end_goes_on_not :
    (session_id : Bytes) (t : Turn) (s m : Sender) (o : Option Bytes)
    → send_end session_id t s o ≢ going m
unfolding send_end put_message
end_goes_on_not session_id t s m none r = cc
end_goes_on_not session_id t s m (some encoded) r =
    all_sent_goes_on_not s m (text encoded)
      (send_context (t.others s.sessions) t.wake session_id (text encoded)) r

frame_ends_not :
    (session_id : Bytes) (t : Turn) (s m : Sender) (x : Result FrameError Bytes)
    → send_frame session_id t s x ≢ all_sent m
unfolding send_frame put_message
frame_ends_not session_id t s m (err e) r = cc
frame_ends_not session_id t s m (ok frame) r =
    advance_ends_not s m (binary frame)
      (send_context (t.others s.sessions) t.wake session_id (binary frame)) r

module _ (encode_end : Bytes → Option Bytes) (session_id request_id : Bytes) (last : Turn) where
  -- A loop that gets to the end has either got there already, or is still going.
  got_there :
      (reads : List Read) (p : Progress) {s' : Sender}
      → send_request_body encode_end session_id request_id last reads p ≡ all_sent s'
      → (p ≡ all_sent s') ⊎ ((m : Sender) × (p ≡ going m))
  unfolding send_request_body
  got_there reads (going s) h = inr (s, refl)
  got_there [] (all_sent s) h = inl h
  got_there (r ∷ reads) (all_sent s) h = inl h
  got_there [] (failed e s) h = cc
  got_there (r ∷ reads) (failed e s) h = cc
  got_there [] (blocked s) h = cc
  got_there (r ∷ reads) (blocked s) h = cc

  going_on :
      (reads : List Read) (e : ReadEnd) (p : Progress) {s' : Sender}
      → send_request_body encode_end session_id request_id last reads
          (after_chunk encode_end session_id request_id last e p)
        ≡ all_sent s'
      → (p ≡ all_sent s') ⊎ ((m : Sender) × (p ≡ going m))
  unfolding after_chunk
  going_on reads e (going s) h = inr (s, refl)
  going_on reads more (all_sent s) h = got_there reads (all_sent s) h
  going_on reads eof (all_sent s) h = got_there reads (all_sent s) h
  going_on reads read_error (all_sent s) h = got_there reads (all_sent s) h
  going_on reads more (failed x s) h = got_there reads (failed x s) h
  going_on reads eof (failed x s) h = got_there reads (failed x s) h
  going_on reads read_error (failed x s) h = got_there reads (failed x s) h
  going_on reads more (blocked s) h = got_there reads (blocked s) h
  going_on reads eof (blocked s) h = got_there reads (blocked s) h
  going_on reads read_error (blocked s) h = got_there reads (blocked s) h

  -- What the messages carry from here on.
  abbrev Sent : List BinaryFrame → Sender → Sender → Type 0
  Sent fs s s' =
      (messages : List OutboundMessage) × (encoded : Bytes) × (encode_end request_id ≡ some encoded)
      × Carries fs messages
      × (s'.sent ≡ s.sent ++ (messages ++ text encoded ∷ []))

  end_reached :
      (reads : List Read) (s s' : Sender)
      → send_request_body encode_end session_id request_id last reads
          (send_end session_id last s (encode_end request_id))
        ≡ all_sent s'
      → Sent [] s s'
  end_reached reads s s' h =
      elim (got_there reads (send_end session_id last s (encode_end request_id)) h) [
        | inl there ↦
            let (encoded, e, q) = end_sent session_id last s s' (encode_end request_id) there in
            ([], encoded, e, tt, q)
        | inr (m, on) ↦ absurd (end_goes_on_not session_id last s m (encode_end request_id) on)
      ]

  after-Sent :
      (reads : List Read) (e : ReadEnd) (s s' : Sender) (fs : List BinaryFrame)
      → (send_request_body encode_end session_id request_id last reads (going s) ≡ all_sent s'
          → Sent fs s s')
      → send_request_body encode_end session_id request_id last reads
          (after_chunk encode_end session_id request_id last e (going s))
        ≡ all_sent s'
      → Sent (frames_after e fs) s s'
  unfolding after_chunk
  after-Sent reads more s s' fs rest h = rest h
  after-Sent reads eof s s' fs rest h = end_reached reads s s' h
  after-Sent reads read_error s s' fs rest h = elim (got_there reads (failed body_error s) h) [
    | inl x ↦ cc
    | inr y ↦ cc y.1
  ]

  Sent_lem :
      (f : BinaryFrame) (fs : List BinaryFrame) (bs : Bytes) (s m s' : Sender)
      → marshal_binary f ≡ ok bs
      → m.sent ≡ s.sent ++ binary bs ∷ []
      → Sent fs m s'
      → Sent (f ∷ fs) s s'
  Sent_lem f fs bs s m s' e q (messages, encoded, en, c, w) = (
    binary bs ∷ messages,
    encoded,
    en,
    (bs, e, refl, c),
    w ∙ (rw q (append_assoc s.sent (binary bs ∷ []) (messages ++ text encoded ∷ []))),
  )

  piece-Sent :
      (reads : List Read) (e : ReadEnd) (t : Turn) (s s' : Sender) (chunk : Bytes)
      → ((m : Sender)
          → send_request_body encode_end session_id request_id last reads (going m) ≡ all_sent s'
          → Sent (frames request_id m.sequence reads) m s')
      → send_request_body encode_end session_id request_id last reads (
          after_chunk encode_end session_id request_id last e
            (send_chunk session_id request_id t s chunk))
        ≡ all_sent s'
      → Sent
          (piece request_id s.sequence chunk (λ k. frames_after e (frames request_id k reads)))
          s
          s'
  unfolding send_chunk
  piece-Sent reads e t s s' [] rest h =
      after-Sent reads e s s' (frames request_id s.sequence reads) (rest s) h
  piece-Sent reads e t s s' (b ∷ bs) rest h =
      let f = frame_of request_id s.sequence (b ∷ bs) in
      let x = send_frame session_id t s (marshal_binary f) in
      elim (going_on reads e x h) [
        | inl there ↦ absurd (frame_ends_not session_id t s s' (marshal_binary f) there)
        | inr (m, on) ↦
            let (encoded, en, q, n) = frame_sent session_id t s m (marshal_binary f) on in
            let h' =
              ap
                (λ p.
                  send_request_body encode_end session_id request_id last reads
                    (after_chunk encode_end session_id request_id last e p))
                (sym on)
              ∙ h in
            let sent = after-Sent reads e m s' (frames request_id m.sequence reads) (rest m) h' in
            Sent_lem f (frames_after e (frames request_id ((s.sequence + 1) % 4294967296) reads))
              encoded s m s' en q
              (subst (λ k. Sent (frames_after e (frames request_id k reads)) m s') n sent)
      ]

  -- When the loop returns nil, the messages that it put on the channel are the body's frames, one for
  -- each piece that was read and is not empty, in order and numbered from the sender's number on, and
  -- then the request's end.
  pub send_request_body_lem :
      (reads : List Read) (s s' : Sender)
      → send_request_body encode_end session_id request_id last reads (going s) ≡ all_sent s'
      → Sent (frames request_id s.sequence reads) s s'
  unfolding send_request_body send_chunk
  send_request_body_lem [] s s' h = cc
  send_request_body_lem (r ∷ reads) s s' h =
      piece-Sent reads r.end r.turn s s' r.chunk (λ m. send_request_body_lem reads m s') h

payloads-piece :
    (id : Bytes) (n : ℕ) (chunk : Bytes) (rest : ℕ → List BinaryFrame) (body : Bytes)
    → ((k : ℕ) → payloads (rest k) ≡ body)
    → payloads (piece id n chunk rest) ≡ chunk ++ body
payloads-piece id n [] rest body h = h n
payloads-piece id n (b ∷ bs) rest body h = ap (λ x. b ∷ bs ++ x) (h ((n + 1) % 4294967296))

payloads-frames_after :
    (e : ReadEnd) (fs : List BinaryFrame) (body : Bytes)
    → payloads fs ≡ body
    → payloads (frames_after e fs) ≡ joined_after e body
payloads-frames_after more fs body h = h
payloads-frames_after eof fs body h = refl
payloads-frames_after read_error fs body h = refl

-- The frames carry what was read.
pub payloads-frames :
    (id : Bytes) (n : ℕ) (reads : List Read) → payloads (frames id n reads) ≡ joined reads
payloads-frames id n [] = refl
payloads-frames id n (r ∷ reads) =
    payloads-piece id n r.chunk (λ k. frames_after r.end (frames id k reads))
      (joined_after r.end (joined reads))
      (λ k.
        payloads-frames_after r.end (frames id k reads) (joined reads) (payloads-frames id k reads))
