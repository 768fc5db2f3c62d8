-- ===== src/Chat/Stream/Tests.antt =====
-- A provider that does not stop.
use ai_serving_backend.Prelude.{◌≡◌, none, [], ◌∷◌, ◌++◌, arith}
use ai_serving_backend.Request.{fresh}
use ai_serving_backend.Chat.Stream.{yields, Arrival, Generator, stream_loop}
use ai_serving_backend.Chat.Stream.Termination.{stream_loop-ends}

abbrev again : Arrival
again = record {
  pause = 0;
  wait = 1;
  outcome = yields (record {
    id = none;
    model = none;
    role = none;
    delta = "x";
    finish_reason = none;
    usage = none;
  });
}

abbrev generator : Generator
generator = record { model = "m"; fallback_id = "f"; deadline = 7 }

stream_loop-ends_example :
    stream_loop generator ((again ∷ again ∷ []) ++ again ∷ again ∷ []) 5 none none fresh
    ≡ stream_loop generator (again ∷ again ∷ []) 5 none none fresh
stream_loop-ends_example =
    stream_loop-ends generator (again ∷ again ∷ []) (again ∷ again ∷ []) 5 none none fresh
      (omega arith) (omega arith)
