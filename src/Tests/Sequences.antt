-- ===== src/Tests/Sequences.antt =====
-- internal/runtime/sequence.go on a short stream.
use market_data_backend.Prelude.{List, [], ◌∷◌, none, refl, ◌≡◌, some, ok, false}
use market_data_backend.Prelude.Int.{pos}
use market_data_backend.Model.{OrderBookDelta}
use market_data_backend.Sequence.{delta_terminal, has_cursor, check_delta_continuity}
use market_data_backend.Sequence.Laws.{
  accepted, accepted-IsAscending, IsAscending, check_delta_continuity-replay,
}
use market_data_backend.Tests.Samples.{delta_at}

abbrev stream : List OrderBookDelta
stream = delta_at 5 [] [] ∷ delta_at 5 [] [] ∷ delta_at 9 [] [] ∷ delta_at 7 [] [] ∷ []

accepted-stream : accepted none stream ≡ delta_at 5 [] [] ∷ delta_at 9 [] [] ∷ []
unfolding accepted check_delta_continuity
accepted-stream = refl

accepted-IsAscending_example : IsAscending (accepted none stream)
unfolding delta_terminal
accepted-IsAscending_example =
    accepted-IsAscending stream
      ((pos 5, refl), ((pos 5, refl), ((pos 9, refl), ((pos 7, refl), tt))))

check_delta_continuity-replay_example :
    check_delta_continuity (some (delta_at 5 [] [])) (delta_at 5 [] []) ≡ ok false
unfolding has_cursor
check_delta_continuity-replay_example = check_delta_continuity-replay (delta_at 5 [] []) refl
