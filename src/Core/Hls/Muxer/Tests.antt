-- ===== src/Core/Hls/Muxer/Tests.antt =====
-- Muxers of internal/core/hls_muxer.go that are asked, fail, and are closed.
use rtc_simple_server.Base.{◌≡◌, refl, true, false, List, [], ◌∷◌}
use rtc_simple_server.Core.Hls.Muxer.{
  res, Muxer, new_muxer, MuxerEvent, closed, run_request, run_inner_ready, run_inner_err,
  run_recreate_timer, inner_failed, inner_started, is_stopping, is_looping, muxer_run, all_come,
}
use rtc_simple_server.Core.Hls.Muxer.Sound.{Sound, new_muxer-Sound, muxer_run-Sound}
use rtc_simple_server.Core.Hls.Muxer.Ends.{
  is_destroyed, stop_while_starting, ending, close_hangs, close_ends,
}

abbrev first : Muxer
first = new_muxer "cam" true false

abbrev asked_and_failed : List MuxerEvent
asked_and_failed =
    run_request 4
    ∷ inner_failed
    ∷ run_inner_err
    ∷ run_request 5
    ∷ run_recreate_timer
    ∷ run_request 6
    ∷ []

asked_and_failed-all_come : all_come asked_and_failed first ≡ true
unfolding all_come new_muxer
asked_and_failed-all_come = refl

-- A request that waits when the conversion fails gets nil, and so does one in the pause; the next
-- waits.
refused : (muxer_run asked_and_failed first).sent ≡ res 5 false ∷ res 4 false ∷ []
unfolding muxer_run new_muxer
refused = refl

abbrev closing_events : Muxer
closing_events = muxer_run (closed ∷ []) first

close_hangs_example :
    (all_come stop_while_starting closing_events ≡ true)
    × (is_stopping (muxer_run (closed ∷ []) (muxer_run stop_while_starting closing_events)).phase
        ≡ true)
unfolding muxer_run new_muxer all_come
close_hangs_example = close_hangs closing_events (closed ∷ []) refl refl

abbrev serving : Muxer
serving = muxer_run (run_request 4 ∷ inner_started ∷ run_inner_ready ∷ []) first

serving-Sound : Sound serving
unfolding all_come new_muxer
serving-Sound =
    muxer_run-Sound (run_request 4 ∷ inner_started ∷ run_inner_ready ∷ []) first refl
      (new_muxer-Sound "cam" true false)

close_ends_example :
    (all_come (ending serving) serving ≡ true)
    × (is_destroyed (muxer_run (ending serving) serving).phase ≡ true)
    × ((muxer_run (ending serving) serving).requests ≡ [])
unfolding muxer_run new_muxer is_looping
close_ends_example = close_ends serving serving-Sound refl
