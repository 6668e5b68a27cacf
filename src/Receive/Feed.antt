-- ===== src/Receive/Feed.antt =====
-- sylar/http/http_session.cc and sylar/http/http_connection.cc: the parser gets every byte once and in order.
use sylar_from_scratch.Base.{
  ℕ, Bool, true, false, not, List, [], ◌∷◌, ◌++◌, some, ◌==◌, if◌then◌else◌, length, take, drop,
  ◌≡◌,
}
use sylar_from_scratch.Base.Bytes.{Text}
use sylar_from_scratch.Stream.{Reading, stop}
use sylar_from_scratch.Stream.Fixed.{received}
use sylar_from_scratch.Receive.{
  Parser, MessageParser, Executed, execute, has_error, Received, message, closed, recv_loop,
}

module _ (P : Parser) (is_request : Bool) (buff_size : ℕ) where
  open P use {State, is_finished, http_parser_execute, upgrade, http_errno}

  -- A call that the loop goes on after: it read without an error, what it left does not fill the buffer,
  -- and the message is not finished.
  pub record GoesOn (x : Executed P) : Type 0 where
    pub fine : has_error P x.parser ≡ false
    pub room : (length x.front == buff_size) ≡ false
    pub unfinished : is_finished x.parser.state ≡ false

  -- The parser goes from one state to another by reading a text, in one piece for each call after which
  -- the loop goes on. A call reads the first bytes of what stands in the buffer.
  pub data Reads : MessageParser P → Text → MessageParser P → Type 0 where
    nothing : (p : MessageParser P) → Reads p [] p
    piece :
        (p q : MessageParser P) (text rest : Text)
        → GoesOn (execute P is_request p text)
        → Reads (execute P is_request p text).parser rest q
        → Reads p (take (execute P is_request p text).nparsed text ++ rest) q

  -- How the loop ends, with `front` in the buffer and the answers `calls` of `read`: before the end
  -- the loop has gone on after each call, and `text` stands in the buffer for the last one.
  pub data Ended (p : MessageParser P) (front : Text) (calls : List Reading)
      : Received P → Type 0 where
    whole :
        (q : MessageParser P) (read text : Text) (made later : List Reading)
        → calls ≡ made ++ later
        → front ++ received made ≡ read ++ text
        → Reads p read q
        → has_error P (execute P is_request q text).parser ≡ false
        → take (execute P is_request q text).nparsed text ++ (execute P is_request q text).front
          ≡ text
        → is_finished (execute P is_request q text).parser.state ≡ true
        → (length (execute P is_request q text).front == buff_size) ≡ false
        → Ended p front calls
            (message (execute P is_request q text).parser (execute P is_request q text).front later)
    peer_stopped :
        (q : MessageParser P) (read rest : Text) (made : List Reading) (e : ℕ)
        (later : List Reading)
        → calls ≡ made ++ stop e ∷ later
        → front ++ received made ≡ read ++ rest
        → Reads p read q
        → Ended p front calls (closed later)
    failed :
        (q : MessageParser P) (read text : Text) (made later : List Reading)
        → calls ≡ made ++ later
        → front ++ received made ≡ read ++ text
        → Reads p read q
        → has_error P (execute P is_request q text).parser ≡ true
        → Ended p front calls (closed later)
    overflowed :
        (q : MessageParser P) (read text : Text) (made later : List Reading)
        → calls ≡ made ++ later
        → front ++ received made ≡ read ++ text
        → Reads p read q
        → has_error P (execute P is_request q text).parser ≡ false
        → (length (execute P is_request q text).front == buff_size) ≡ true
        → Ended p front calls (closed later)

  abbrev executed : Bool → Bool → MessageParser P → State → ℕ → Text → Executed P
  executed upgraded ok p s n text =
      if upgraded
      then record { parser = record { state = s; m_error = 33 }; front = text; nparsed = n }
      else if not ok
      then record {
        parser = record { state = s; m_error = http_errno s };
        front = text;
        nparsed = n;
      }
      else record { parser = record p { state = s }; front = drop n text; nparsed = n }

  -- A piece before an end of the loop.
  module _ (p : MessageParser P) (front : Text) (b : ℕ) (bs : List ℕ) (later : List Reading)
      (on : GoesOn (execute P is_request p (front ++ b ∷ bs))) where
    abbrev x : Executed P
    x = execute P is_request p (front ++ b ∷ bs)

  Ends : MessageParser P → Text → List Reading → Type 0
  Ends p front calls =
      (o : Received P) × (recv_loop P is_request buff_size p front calls ≡ some o)
      × Ended p front calls o
