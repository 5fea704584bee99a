-- ===== src/Live/Call.antt =====
-- crates/fineco-live/src/lib.rs, and `read_command_message` of crates/fineco-ipc/src/lib.rs: one call over
-- the live socket. JSON encoding and parsing are the library's; the deadlines of the sockets are left out.
pub mod Carried
use fineco_helper.Core.SafeError
use fineco_helper.Base.{
  [], ◌∷◌, none, some, ok, err, List, Option, ℕ, Exec, Result, String, if◌then◌else◌, ◌>>=◌, str_eq,
  map_err, and_then, ◌||◌, replace_err, ◌>>◌, lift, ok_or,
}
use fineco_helper.Live.Wire.{
  LiveRequest, LiveFetcher, LiveReply, LiveError, handle_live_request, LiveResponse, error_dto,
}
use fineco_helper.Core.SafeError.{SafeError}
use fineco_helper.Ipc.Frame.{Bytes, IoError, Writer, write_message, read_message}
use fineco_helper.Core.Validate.{invalid_request}
use fineco_helper.Live.Errors.{safe_error_from_dto}

-- What the JSON library does: `to_vec`, `from_slice`, `as_object` with its keys, and `from_value`.
pub record Codec (Json : Type 0) : Type 0 where
  pub request_to_vec : LiveRequest → Option Bytes
  pub value_from_slice : Bytes → Option Json
  pub object_keys : Json → Option (List String)
  pub request_from_value : Json → Option LiveRequest
  pub reply_to_vec : LiveReply Json → Option Bytes
  pub reply_from_slice : Bytes → Option (LiveReply Json)

abbrev pub check_keys : List String → Result SafeError (Unit {0})
check_keys [] = ok tt
check_keys (key ∷ keys) =
    if str_eq key "command" || str_eq key "params"
    then check_keys keys
    else err (invalid_request "Request carries an unexpected field.")

unfoldable pub validate_envelope_keys : Option (List String) → Result SafeError (Unit {0})
validate_envelope_keys none = err (invalid_request "Request must be a JSON object.")
validate_envelope_keys (some keys) = check_keys keys

abbrev pub undecoded : SafeError
undecoded = invalid_request "the request could not be decoded"

-- A listening worker: how many bytes its socket takes, and what can be read after the bytes that
-- were sent; a refused connection has none.
pub record Socket : Type 0 where
  pub room : ℕ
  pub answer : Bytes → Bytes

module _ {Json : Type 0} (codec : Codec Json) where
  unfoldable pub read_command_message : Exec Bytes SafeError LiveRequest
  read_command_message = do
    value ← map_err undecoded (read_message codec.value_from_slice)
    lift (validate_envelope_keys (codec.object_keys value))
    lift (ok_or (codec.request_from_value value) undecoded)

  abbrev pub handled : Result LiveError (LiveResponse Json) → LiveReply Json
  handled (ok body) = LiveReply.ok_reply body
  handled (err e) = LiveReply.err_reply (error_dto e.error) e.market_session

  abbrev pub reply_to : LiveFetcher Json → Result SafeError LiveRequest → LiveReply Json
  reply_to fetcher (ok request) = handled (handle_live_request fetcher request)
  reply_to fetcher (err e) = LiveReply.err_reply (error_dto e) none

  -- The reply to the bytes that arrive.
  unfoldable pub serve_one : LiveFetcher Json → Bytes → Exec Writer IoError (Unit {0})
  serve_one fetcher arrived =
      write_message codec.reply_to_vec (reply_to fetcher (read_command_message arrived).0)

  abbrev pub safe : SafeError → LiveError
  safe e = record { error = e; market_session = none }

  unfoldable pub received : LiveReply Json → Result LiveError (LiveResponse Json)
  received (LiveReply.ok_reply body) = ok body
  received (LiveReply.err_reply dto session) =
      err (record { error = safe_error_from_dto dto; market_session = session })

  -- The reply to what was sent, if it was sent.
  abbrev pub after_write :
      Socket → Result IoError (Unit {0}) × Writer → Result LiveError (LiveResponse Json)
  after_write socket (err e, w) = err (safe SafeError.live_transport_failure)
  after_write socket (ok _, w) =
      and_then
        (replace_err (safe SafeError.internal)
          (read_message codec.reply_from_slice (socket.answer w.sent)).0)
        received

  unfoldable pub call : Option Socket → LiveRequest → Result LiveError (LiveResponse Json)
  call none request = err (safe SafeError.live_transport_failure)
  call (some socket) request =
      after_write socket
        (write_message codec.request_to_vec request (record { sent = []; room = socket.room }))

  -- A worker that serves one connection: `fetcher` behind sockets of the given room.
  abbrev pub worker : LiveFetcher Json → ℕ → Socket
  worker fetcher room = record {
    room = room;
    answer = λ arrived. (serve_one fetcher arrived (record { sent = []; room = room })).1.sent;
  }
