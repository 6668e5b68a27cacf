-- ===== src/Receive/Tests.antt =====
-- A parser that reads every byte and wants three of them, on a connection that sends two and two.
use sylar_from_scratch.Base.{ℕ, ◌+◌, ◌≡◌, refl, false, List, [], ◌∷◌, ◌++◌, some, leb, length}
use sylar_from_scratch.Stream.{Reading, bytes, stop}
use sylar_from_scratch.Receive.{Parser, message, recv_request, recv_loop, execute, has_error}

abbrev three : Parser
three = record {
  State = ℕ;
  start = 0;
  http_parser_execute = λ s text. (s + length text, length text);
  upgrade = λ s. false;
  http_errno = λ s. 0;
  is_finished = λ s. leb 3 s;
}

abbrev sent : List Reading
sent = bytes 71 (69 ∷ []) ∷ bytes 84 (32 ∷ []) ∷ []

received_small :
    recv_request three 16 (sent ++ stop 0 ∷ [])
    ≡ some (message (record { state = 4; m_error = 0 }) [] (stop 0 ∷ []))
unfolding recv_request recv_loop execute has_error
received_small = refl
