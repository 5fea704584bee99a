-- ===== src/Live/Call/Carried.antt =====
-- crates/fineco-live/src/lib.rs: a call over the socket answers what the fetcher behind it does.
use mathlib.Core.List.{append-nil}
use fineco_helper.Ipc.Frame.Messages.{write_message-read_message}
use fineco_helper.Base.{
  [], some, ok, Option, List, ◌≡◌, ℕ, String, length, ◌≤◌, ◌+◌, refl, ap, sym, Result, arith, ◌∙◌,
}
use fineco_helper.Live.Call.{
  Codec, check_keys, read_command_message, Socket, serve_one, validate_envelope_keys, handled,
  after_write, worker, received, reply_to, call,
}
use fineco_helper.Live.Wire.{LiveRequest, LiveReply, LiveFetcher, handle_live_request}
use fineco_helper.Ipc.Frame.{Bytes, max_message_bytes, write_message, read_message, IoError, Writer}

module _ {Json : Type 0} (codec : Codec Json) where
  -- The JSON library's round trip for a request: an object with the fields `command` and `params`.
  pub record IsSent (request : LiveRequest) : Type 0 where
    pub bytes : Bytes
    pub value : Json
    pub keys : List String
    pub encoded : codec.request_to_vec request ≡ some bytes
    pub size : length bytes ≤ max_message_bytes
    pub parsed : codec.value_from_slice bytes ≡ some value
    pub object : codec.object_keys value ≡ some keys
    pub allowed : check_keys keys ≡ ok tt
    pub typed : codec.request_from_value value ≡ some request

  -- And for a reply.
  pub record IsReplied (reply : LiveReply Json) : Type 0 where
    pub bytes : Bytes
    pub encoded : codec.reply_to_vec reply ≡ some bytes
    pub size : length bytes ≤ max_message_bytes
    pub parsed : codec.reply_from_slice bytes ≡ some reply

  -- One side's message is read as the other side's, where both stand for the same bytes.
  read_back :
      {T U : Type 0} (to_vec : T → Option Bytes) (from_slice : Bytes → Option U) (message : T)
      (meant : U) (bytes : Bytes) (room : ℕ)
      → to_vec message ≡ some bytes
      → from_slice bytes ≡ some meant
      → length bytes ≤ max_message_bytes
      → 4 + max_message_bytes ≤ room
      → let (r, w) = write_message to_vec message (record { sent = []; room = room }) in
        (r ≡ ok tt) × (read_message from_slice w.sent ≡ (ok meant, []))
  unfolding write_message
  read_back to_vec from_slice message meant bytes room e f h k =
      let sent =
        write_message-read_message (λ _. some bytes) from_slice meant bytes [] room refl f h
          (omega (arith, h, k)) in
      rw e (sent.0, ap (read_message from_slice) (sym (append-nil _)) ∙ sent.1)

  read_command_message_lem :
      (arrived : Bytes) (request : LiveRequest) (value : Json) (keys : List String)
      → read_message codec.value_from_slice arrived ≡ (ok value, [])
      → codec.object_keys value ≡ some keys
      → check_keys keys ≡ ok tt
      → codec.request_from_value value ≡ some request
      → (read_command_message codec arrived).0 ≡ ok request
  unfolding read_command_message validate_envelope_keys
  read_command_message_lem arrived request value keys e f g h = rw (e, f, g, h) refl

  after_write_lem :
      (socket : Socket) (reply : LiveReply Json) (r : Result IoError (Unit {0})) (w : Writer)
      → r ≡ ok tt
      → read_message codec.reply_from_slice (socket.answer w.sent) ≡ (ok reply, [])
      → after_write codec socket (r, w) ≡ received codec reply
  after_write_lem socket reply r w e f = rw (e, f) refl

  -- What the worker sends for a request is its reply.
  answer_lem :
      (fetcher : LiveFetcher Json) (room : ℕ) (arrived : Bytes) (request : LiveRequest)
      → 4 + max_message_bytes ≤ room
      → (read_command_message codec arrived).0 ≡ ok request
      → IsReplied (handled codec (handle_live_request fetcher request))
      → read_message codec.reply_from_slice ((worker codec fetcher room).answer arrived)
        ≡ (ok (handled codec (handle_live_request fetcher request)), [])
  unfolding serve_one
  answer_lem fetcher room arrived request h e replied =
      ap
        (λ x.
          read_message codec.reply_from_slice
            (write_message codec.reply_to_vec (reply_to codec fetcher x)
              (record { sent = []; room = room })).1.sent)
        e
      ∙ (read_back codec.reply_to_vec codec.reply_from_slice _
          (handled codec (handle_live_request fetcher request)) replied.bytes room replied.encoded
          replied.parsed replied.size h).1

  -- A request that crosses and whose reply does, through sockets that take a whole frame, is answered
  -- as the worker's fetcher answers it, with the error built again.
  pub call-worker :
      (fetcher : LiveFetcher Json) (room : ℕ) (request : LiveRequest)
      → 4 + max_message_bytes ≤ room
      → IsSent request
      → IsReplied (handled codec (handle_live_request fetcher request))
      → call codec (some (worker codec fetcher room)) request
        ≡ received codec (handled codec (handle_live_request fetcher request))
  unfolding call
  call-worker fetcher room request h sent replied =
      let there =
        read_back codec.request_to_vec codec.value_from_slice request sent.value sent.bytes room
          sent.encoded sent.parsed sent.size h in
      after_write_lem (worker codec fetcher room)
        (handled codec (handle_live_request fetcher request)) _ _ there.0
        (answer_lem fetcher room _ request h
          (read_command_message_lem _ request sent.value sent.keys there.1 sent.object sent.allowed
            sent.typed)
          replied)
