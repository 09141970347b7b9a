-- ===== src/Core/Stream.antt =====
-- internal/core/stream.go, stream_media.go and stream_format.go: a stream and its readers.
use rtc_simple_server.Base.{
  ◌==◌, if◌then◌else◌, is_empty, ℕ, ◌+◌, ◌%◌, Bool, not, Option, none, some, List, [], ◌∷◌,
}
pub mod Readers
mod Tests

-- A Go map with numbers as keys, as the list of its entries.
module _ {ℓ} {V : Type ℓ} where
  unfoldable pub find : ℕ → List (ℕ × V) → Option V
  find k [] = none
  find k ((key, v) ∷ rest) = let later = find k rest in if key == k then some v else later

  unfoldable pub erase : ℕ → List (ℕ × V) → List (ℕ × V)
  erase k [] = []
  erase k ((key, v) ∷ rest) =
      let others = erase k rest in if key == k then others else (key, v) ∷ others

  unfoldable pub put : ℕ → V → List (ℕ × V) → List (ℕ × V)
  unfolding erase
  put k v entries = (k, v) ∷ erase k entries

-- `streamFormat`: the readers that do not use RTSP, each with its callback.
pub record StreamFormat : Type 0 where
  pub non_rtsp_readers : List (ℕ × ℕ)

pub record StreamMedia : Type 0 where
  pub formats : List (ℕ × StreamFormat)

-- A call of a callback: the reader that it was added for, the callback and the unit.
pub record Call : Type 0 where
  pub reader : ℕ
  pub callback : ℕ
  pub unit : ℕ

-- `stream`, with what it has written to its RTSP stream (media and packet) and the calls of
-- callbacks, the newest first. Units, packets, medias and formats are numbers.
pub record Stream : Type 0 where
  pub bytes_received : ℕ
  pub smedias : List (ℕ × StreamMedia)
  pub rtsp_packets : List (ℕ × ℕ)
  pub calls : List Call

-- `has_processor` tells whether formatprocessor.New returns no error for a format.
module _ (has_processor : ℕ → Bool) where
  unfoldable pub new_stream_format : ℕ → Option StreamFormat
  new_stream_format forma =
      if has_processor forma then some (record { non_rtsp_readers = [] }) else none

  -- The loop of `newStreamMedia`, from the formats so far.
  unfoldable pub add_formats : List ℕ → StreamMedia → Option StreamMedia
  unfolding new_stream_format put
  add_formats [] sm = some sm
  add_formats (forma ∷ formas) sm = elim (new_stream_format forma) [
    | none ↦ none
    | some sf ↦ add_formats formas (record sm { formats = put forma sf sm.formats })
  ]

  unfoldable pub new_stream_media : List ℕ → Option StreamMedia
  unfolding add_formats
  new_stream_media formas = add_formats formas (record { formats = [] })

  -- The loop of `newStream` over the medias, each with its formats.
  unfoldable pub add_medias : List (ℕ × List ℕ) → Stream → Option Stream
  unfolding new_stream_media put
  add_medias [] s = some s
  add_medias ((medi, formas) ∷ medias) s = elim (new_stream_media formas) [
    | none ↦ none
    | some sm ↦ add_medias medias (record s { smedias = put medi sm s.smedias })
  ]

  -- `bytes` is the counter that the stream shares with its path.
  unfoldable pub new_stream : List (ℕ × List ℕ) → ℕ → Option Stream
  unfolding add_medias
  new_stream medias bytes =
      add_medias medias
        (record { bytes_received = bytes; smedias = []; rtsp_packets = []; calls = [] })

-- `none` is the use of a nil pointer, for a media or a format that the stream does not have.
unfoldable pub reader_add : ℕ → ℕ → ℕ → ℕ → Stream → Option Stream
unfolding find put
reader_add r medi forma cb s = elim (find medi s.smedias) [
  | none ↦ none
  | some sm ↦ elim (find forma sm.formats) [
    | none ↦ none
    | some sf ↦
        let sf' = record sf { non_rtsp_readers = put r cb sf.non_rtsp_readers } in
        some (record s {
          smedias = put medi (record sm { formats = put forma sf' sm.formats }) s.smedias;
        })
  ]
]

unfoldable pub remove_from_formats : ℕ → List (ℕ × StreamFormat) → List (ℕ × StreamFormat)
unfolding erase
remove_from_formats r [] = []
remove_from_formats r ((forma, sf) ∷ rest) =
    (forma, record sf { non_rtsp_readers = erase r sf.non_rtsp_readers })
    ∷ remove_from_formats r rest

unfoldable pub remove_from_medias : ℕ → List (ℕ × StreamMedia) → List (ℕ × StreamMedia)
unfolding remove_from_formats
remove_from_medias r [] = []
remove_from_medias r ((medi, sm) ∷ rest) =
    (medi, record sm { formats = remove_from_formats r sm.formats }) ∷ remove_from_medias r rest

unfoldable pub reader_remove : ℕ → Stream → Stream
unfolding remove_from_medias
reader_remove r s = record s { smedias = remove_from_medias r s.smedias }

-- `process` stands for the processor of a format, which may fail, and `packets` for the RTP packets
-- of a unit, each with its size.
module _ (process : ℕ → ℕ → Bool → Option ℕ) (packets : ℕ → List (ℕ × ℕ)) where
  unfoldable pub forward_packets : ℕ → List (ℕ × ℕ) → Stream → Stream
  forward_packets medi [] s = s
  forward_packets medi ((pkt, size) ∷ pkts) s = forward_packets medi pkts (record s {
    bytes_received = (s.bytes_received + size) % 18446744073709551616;
    rtsp_packets = (medi, pkt) ∷ s.rtsp_packets;
  })

  unfoldable pub call_readers : ℕ → List (ℕ × ℕ) → Stream → Stream
  call_readers unit [] s = s
  call_readers unit ((r, cb) ∷ rest) s =
      call_readers unit rest
        (record s { calls = record { reader = r; callback = cb; unit = unit } ∷ s.calls })

  unfoldable pub format_write_unit : ℕ → ℕ → ℕ → StreamFormat → Stream → Stream
  unfolding forward_packets call_readers
  format_write_unit medi forma unit sf s =
      elim (process forma unit (not (is_empty sf.non_rtsp_readers))) [
        | none ↦ s
        | some d ↦ call_readers d sf.non_rtsp_readers (forward_packets medi (packets d) s)
      ]

  unfoldable pub write_unit : ℕ → ℕ → ℕ → Stream → Option Stream
  unfolding find format_write_unit
  write_unit medi forma unit s = elim (find medi s.smedias) [
    | none ↦ none
    | some sm ↦ elim (find forma sm.formats) [
      | none ↦ none
      | some sf ↦ some (format_write_unit medi forma unit sf s)
    ]
  ]
