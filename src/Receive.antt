-- ===== src/Receive.antt =====
-- sylar/http/http_parser.cc, sylar/http/http_session.cc and sylar/http/http_connection.cc: how a message is
-- read from a stream into a buffer and handed to the parser.
-- The http-parser library and the answers of `read` are arguments. Of the buffer, the bytes are kept
-- that wait in front of the next ones.
pub mod Feed
mod Tests
use sylar_from_scratch.Base.{
  ℕ, Bool, true, false, not, ◌&&◌, List, [], ◌∷◌, ◌++◌, Option, some, none, ◌==◌, if◌then◌else◌,
  length, drop,
}
use sylar_from_scratch.Base.Bytes.{Text}
use sylar_from_scratch.Stream.{Reading, bytes, stop}

-- The library: `http_parser_execute` with the new state and the number of bytes that it read, and what
-- is read of the state. `is_finished` is what the callback of a complete message sets.
pub record Parser : Type 1 where
  pub State : Type 0
  pub start : State
  pub http_parser_execute : State → Text → State × ℕ
  pub upgrade : State → Bool
  pub http_errno : State → ℕ
  pub is_finished : State → Bool

module _ (P : Parser) where
  open P use {State, start, http_parser_execute, upgrade, http_errno, is_finished}

  -- HttpRequestParser and HttpResponseParser: the library's state and m_error.
  pub record MessageParser : Type 0 where
    pub state : State
    pub m_error : ℕ

  pub message_parser : MessageParser
  message_parser = record { state = start; m_error = 0 }

  pub has_error : MessageParser → Bool
  has_error p = not (p.m_error == 0)

  -- What `execute` leaves: the parser, the text at the front of the buffer, and the number it returns.
  pub record Executed : Type 0 where
    pub parser : MessageParser
    pub front : Text
    pub nparsed : ℕ

  -- HPE_UNKNOWN.
  abbrev pub hpe_unknown : ℕ
  hpe_unknown = 33

  -- `execute` of a request; of a response, an upgrade is no error.
  pub execute : Bool → MessageParser → Text → Executed
  execute is_request p text =
      let (s, nparsed) = http_parser_execute p.state text in
      if is_request && upgrade s
      then record {
        parser = record { state = s; m_error = hpe_unknown };
        front = text;
        nparsed = nparsed;
      }
      else if not (http_errno s == 0)
      then record {
        parser = record { state = s; m_error = http_errno s };
        front = text;
        nparsed = nparsed;
      }
      else record { parser = record p { state = s }; front = drop nparsed text; nparsed = nparsed }

  -- The end of the loop: a message with the bytes behind it, or the connection is closed and there is
  -- none; with the answers of `read` that are left.
  pub data Received : Type 0 where
    message : MessageParser → Text → List Reading → Received
    closed : List Reading → Received

  -- The loop of `recvRequest` and of `recvResponse`, with `front` waiting in the buffer.
  pub recv_loop : Bool → ℕ → MessageParser → Text → List Reading → Option Received
  recv_loop is_request buff_size p front [] = none
  recv_loop is_request buff_size p front (stop e ∷ later) = some (closed later)
  recv_loop is_request buff_size p front (bytes b bs ∷ later) =
      let x = execute is_request p (front ++ b ∷ bs) in
      let next = recv_loop is_request buff_size x.parser x.front later in
      if has_error x.parser
      then some (closed later)
      else if length x.front == buff_size
      then some (closed later)
      else if is_finished x.parser.state
      then some (message x.parser x.front later)
      else next

  pub recv_request : ℕ → List Reading → Option Received
  unfolding recv_loop message_parser
  recv_request buff_size = recv_loop true buff_size message_parser []

  -- The buffer has the size that is set for requests.
  pub recv_response : ℕ → List Reading → Option Received
  unfolding recv_loop message_parser
  recv_response request_buff_size = recv_loop false request_buff_size message_parser []
