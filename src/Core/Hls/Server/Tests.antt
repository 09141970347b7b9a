-- ===== src/Core/Hls/Server/Tests.antt =====
-- The HLS server of internal/core/hls_server.go with two muxers.
use rtc_simple_server.Base.{◌+◌, ◌≡◌, refl, true, false, some, List, [], ◌∷◌, map}
use rtc_simple_server.Core.Hls.Muxer.{run_inner_ready, run_inner_err, inner_failed, inner_started}
use rtc_simple_server.Base.Text.{lookup}
use rtc_simple_server.Base.Indexed.{total}
use rtc_simple_server.Core.Hls.Server.{
  Server, new_server, ServerEvent, source_ready, request, muxer_close, muxer_event, server_run,
  all_can,
}
use rtc_simple_server.Core.Hls.Muxer.Answers.{times}
use rtc_simple_server.Core.Hls.Server.Answers.{accounted, all_server_asks, server_answers}

-- The first request for a path creates its muxer; a muxer that ended is created anew.
abbrev busy : List ServerEvent
busy =
    request 1 "cam" true
    ∷ muxer_event 0 inner_failed
    ∷ muxer_event 0 run_inner_err
    ∷ request 2 "cam" false
    ∷ muxer_close 0
    ∷ request 3 "cam" true
    ∷ muxer_event 1 inner_started
    ∷ muxer_event 1 run_inner_ready
    ∷ []

busy-all_can : all_can busy (new_server false) ≡ true
unfolding all_can new_server
busy-all_can = refl

abbrev after_busy : Server
after_busy = server_run busy (new_server false)

server_answers_example :
    times 2 after_busy.refused + total (accounted 2) after_busy.all ≡ all_server_asks 2 busy
server_answers_example = server_answers false busy 2 busy-all_can

third_served : (after_busy.refused ≡ 2 ∷ []) × (lookup "cam" after_busy.muxers ≡ some 1)
unfolding server_run new_server lookup
third_served = (refl, refl)

-- The report that a source is not ready was lost, and the source is ready again: its first muxer is
-- open still, and not in the map.
abbrev ready_again : List ServerEvent
ready_again = source_ready "cam" ∷ source_ready "cam" ∷ []

two_muxers :
    (all_can ready_again (new_server true) ≡ true)
    × (map (λ m. m.ctx_done) (server_run ready_again (new_server true)).all ≡ false ∷ false ∷ [])
    × (lookup "cam" (server_run ready_again (new_server true)).muxers ≡ some 1)
unfolding all_can server_run new_server lookup
two_muxers = (refl, refl, refl)
