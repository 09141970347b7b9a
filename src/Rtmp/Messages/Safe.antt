-- ===== src/Rtmp/Messages/Safe.antt =====
-- The `Unmarshal` functions of internal/rtmp/message that slice the body without a look at its length
-- get long bodies only. A byte that is read behind a check of the length cannot panic here.
use rtc_simple_server.Base.{
  ltb, length, ℕ, ◌≡◌, ◌≢◌, Bool, true, false, not, ◌||◌, Option, none, some, arith, refl, subst,
}
use rtc_simple_server.Rtmp.Message.{RawMessage, Kind, Result, err, ok, allocate_message}
use rtc_simple_server.Rtmp.Media.{MediaResult}
use rtc_simple_server.Rtmp.Extended.{
  unmarshal_frames_x, unmarshal_sequence_start, unmarshal_four_cc,
}
use rtc_simple_server.Rtmp.Messages.{
  Message, panics, parsed, unmarshal_as, parse, of_option, of_media, of_result, body_size_refused,
}

-- The types whose `Unmarshal` slices the body without a look at its length.
abbrev is_sliced : Kind → Bool
is_sliced Kind.extended_sequence_start = true
is_sliced Kind.extended_frames_x = true
is_sliced Kind.extended_metadata = true
is_sliced Kind.extended_mpeg2ts_sequence_start = true
is_sliced k = false

abbrev is_long : RawMessage → Result Kind → Bool
is_long raw (err e) = true
is_long raw (ok k) = not (is_sliced k) || not (ltb (length raw.body) 5)

allocated_long : (raw : RawMessage) → is_long raw (allocate_message raw) ≡ true
unfolding allocate_message
allocated_long raw = ground arith

module _ (frame_key frame_inter : ℕ) where
  not_panics_result : {A : Type 0} (f : A → Message) (x : Result A) → of_result f x ≢ panics
  not_panics_result f (err e) = λ h. cc h
  not_panics_result f (ok a) = λ h. cc h

  not_panics_media : {A : Type 0} (f : A → Message) (x : MediaResult A) → of_media f x ≢ panics
  not_panics_media f (MediaResult.err e) = λ h. cc h
  not_panics_media f (MediaResult.ok a) = λ h. cc h

  not_panics_refused :
      {A : Type 0} (f : A → Message) (x : Option A)
      → of_option body_size_refused (λ a. parsed (f a)) x ≢ panics
  not_panics_refused f none = λ h. cc h
  not_panics_refused f (some a) = λ h. cc h

  unmarshal_as_safe :
      (k : Kind) (raw : RawMessage)
      → (not (is_sliced k) || not (ltb (length raw.body) 5)) ≡ true
      → unmarshal_as frame_key frame_inter k raw ≢ panics
  unfolding unmarshal_as unmarshal_sequence_start unmarshal_frames_x unmarshal_four_cc
  unmarshal_as_safe Kind.set_chunk_size raw h = not_panics_result _ _
  unmarshal_as_safe Kind.acknowledge raw h = not_panics_result _ _
  unmarshal_as_safe Kind.set_window_ack_size raw h = not_panics_result _ _
  unmarshal_as_safe Kind.set_peer_bandwidth raw h = not_panics_result _ _
  unmarshal_as_safe Kind.stream_begin raw h = not_panics_result _ _
  unmarshal_as_safe Kind.stream_eof raw h = not_panics_result _ _
  unmarshal_as_safe Kind.stream_dry raw h = not_panics_result _ _
  unmarshal_as_safe Kind.set_buffer_length raw h = not_panics_result _ _
  unmarshal_as_safe Kind.stream_is_recorded raw h = not_panics_result _ _
  unmarshal_as_safe Kind.ping_request raw h = not_panics_result _ _
  unmarshal_as_safe Kind.ping_response raw h = not_panics_result _ _
  unmarshal_as_safe Kind.command_amf0 raw h = λ e. cc e
  unmarshal_as_safe Kind.data_amf0 raw h = λ e. cc e
  unmarshal_as_safe Kind.audio raw h = not_panics_media _ _
  unmarshal_as_safe Kind.video raw h = not_panics_media _ _
  unmarshal_as_safe Kind.extended_sequence_start raw h = λ e. ground (arith, h, e)
  unmarshal_as_safe Kind.extended_coded_frames raw h = not_panics_refused _ _
  unmarshal_as_safe Kind.extended_sequence_end raw h = not_panics_refused _ _
  unmarshal_as_safe Kind.extended_frames_x raw h = λ e. ground (arith, h, e)
  unmarshal_as_safe Kind.extended_metadata raw h = λ e. ground (arith, h, e)
  unmarshal_as_safe Kind.extended_mpeg2ts_sequence_start raw h = λ e. ground (arith, h, e)

  allocated_safe :
      (raw : RawMessage) (x : Result Kind)
      → allocate_message raw ≡ x
      → parse frame_key frame_inter raw ≢ panics
  unfolding parse
  allocated_safe raw (err e) h = rw (h, parse) (λ q. cc q)
  allocated_safe raw (ok k) h =
      rw (h, parse)
        (unmarshal_as_safe k raw (subst (λ x. is_long raw x ≡ true) h (allocated_long raw)))

  -- None of the slices of the body that no check of its length precedes panics: what reaches such an
  -- `Unmarshal` has been seen to have five bytes.
  pub parse_safe : (raw : RawMessage) → parse frame_key frame_inter raw ≢ panics
  parse_safe raw = allocated_safe raw (allocate_message raw) refl
