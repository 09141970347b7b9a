-- ===== src/Core/Stream/Tests.antt =====
-- A stream of internal/core with two readers.
use rtc_simple_server.Base.{
  ℕ, zero, suc, ◌≡◌, refl, ◌≢◌, ◌==◌, Bool, true, false, Option, none, some, List, [], ◌∷◌, arith,
}
use rtc_simple_server.Core.Stream.{put, Stream, new_stream, reader_add, reader_remove, write_unit}
use rtc_simple_server.Core.Stream.Readers.{
  calls_of, readers_at, delivered, write_unit-reader_remove, write_unit-reader_add,
}

-- A processor that fails on unit 0, and one packet of ten bytes for a unit.
abbrev process : ℕ → ℕ → Bool → Option ℕ
process forma zero b = none
process forma (suc n) b = some (suc n)

abbrev packets : ℕ → List (ℕ × ℕ)
packets unit = (unit, 10) ∷ []

-- Media 1 with formats 5 and 6; reader 2 reads format 5.
abbrev stream : Stream
stream = record {
  bytes_received = 0;
  smedias =
      (
        1,
        record {
          formats =
              (5, record { non_rtsp_readers = (2, 20) ∷ [] })
              ∷ (6, record { non_rtsp_readers = [] })
              ∷ [];
        },
      )
      ∷ [];
  rtsp_packets = [];
  calls = [];
}

abbrev written : Stream
written = record stream {
  bytes_received = 10;
  rtsp_packets = (1, 9) ∷ [];
  calls = record { reader = 2; callback = 20; unit = 9 } ∷ [];
}

unit_written : write_unit process packets 1 5 9 stream ≡ some written
unfolding write_unit
unit_written = refl

unit_refused : write_unit process packets 1 5 0 stream ≡ some stream
unfolding write_unit
unit_refused = refl

no_media : reader_add 3 2 5 30 stream ≡ none
unfolding reader_add
no_media = refl

created : new_stream (λ forma. true) ((1, 5 ∷ 6 ∷ []) ∷ []) 0 ≢ none
unfolding new_stream
created e = ground (arith, e)

abbrev removed : Stream
removed = record (reader_remove 2 stream) { bytes_received = 10; rtsp_packets = (1, 9) ∷ [] }

removed_lem : write_unit process packets 1 5 9 (reader_remove 2 stream) ≡ some removed
unfolding write_unit reader_remove
removed_lem = refl

write_unit-reader_remove_example : calls_of 2 removed.calls ≡ []
write_unit-reader_remove_example =
    write_unit-reader_remove process packets 2 1 5 9 stream removed removed_lem

abbrev added : Stream
unfolding put
added = record stream {
  smedias =
      put 1
        (record {
          formats =
              put 5 (record { non_rtsp_readers = put 3 30 ((2, 20) ∷ []) })
                ((5, record { non_rtsp_readers = (2, 20) ∷ [] })
                  ∷ (6, record { non_rtsp_readers = [] })
                  ∷ []);
        })
        stream.smedias;
}

added_lem : reader_add 3 1 5 30 stream ≡ some added
unfolding reader_add
added_lem = refl

write_unit-reader_add_example :
    (s2 : Stream) × (write_unit process packets 1 5 9 added ≡ some s2)
    × (calls_of 3 s2.calls ≡ (30, 9) ∷ [])
    × ((q : ℕ) → (3 == q) ≡ false → calls_of q s2.calls ≡ delivered q 9 (readers_at 1 5 stream) [])
write_unit-reader_add_example =
    write_unit-reader_add process packets 3 1 5 30 9 9 stream added added_lem refl
